-- ===== src/Ports/Replay.antt =====
-- The events of the ports tell which ports are up.
use finsy.Prelude.{◌≡◌, Bool, true, false, Option, none, some}
use finsy.Prelude.{List, [], ◌∷◌, Str, str_eq, if◌then◌else◌}
use finsy.Ports.{SwitchPort, is_up, PortEvent, port_up, port_down, find_port, oper_status}

-- Whether a port of this name is there and up
abbrev up_port : Option SwitchPort → Bool
up_port none = false
up_port (some p) = is_up p.oper_status

abbrev pub is_up_in : Str → List SwitchPort → Bool
is_up_in name ports = up_port (find_port name ports)

-- What a listener that counts the events of one port believes
abbrev pub replay : Str → List PortEvent → Bool → Bool
replay name [] b = b
replay name (port_up n ∷ es) b = replay name es (if str_eq n name then true else b)
replay name (port_down n ∷ es) b = replay name es (if str_eq n name then false else b)

-- A result of updates whose events tell what happened to the port
abbrev Tells : Str → List SwitchPort → List SwitchPort × List PortEvent → Type 0
Tells name ports r = is_up_in name r.0 ≡ replay name r.1 (is_up_in name ports)
