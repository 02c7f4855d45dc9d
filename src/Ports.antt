-- ===== src/Ports.antt =====
-- finsy/ports.py: the ports of a switch and their status.
-- A subscription is the list of the updates that it brings; an update of another path is only logged.
pub mod Replay
mod Examples
use finsy.Prelude.{
  ℕ, Bool, true, false, ◌&&◌, not, Option, none, some, List, [], ◌∷◌, ◌++◌, length, if◌then◌else◌,
}
use finsy.Prelude.{
  Str, codes, str_eq, Result, ok, err, ◌>>=◌, ◌>>◌, guard, key_error, value_error, assertion_error,
}

pub data OperStatus : Type 0 where
  dormant lower_layer_down unknown testing up down not_present : OperStatus

-- OperStatus(value)
unfoldable pub oper_status : Str → Result OperStatus
oper_status s =
    if str_eq s (codes "DORMANT")
    then ok OperStatus.dormant
    else if str_eq s (codes "LOWER_LAYER_DOWN")
    then ok OperStatus.lower_layer_down
    else if str_eq s (codes "UNKNOWN")
    then ok OperStatus.unknown
    else if str_eq s (codes "TESTING")
    then ok OperStatus.testing
    else if str_eq s (codes "UP")
    then ok OperStatus.up
    else if str_eq s (codes "DOWN")
    then ok OperStatus.down
    else if str_eq s (codes "NOT_PRESENT")
    then ok OperStatus.not_present
    else err value_error

pub record SwitchPort : Type 0 where
  pub id : ℕ
  pub name : Str
  pub oper_status : OperStatus

abbrev pub is_up : OperStatus → Bool
is_up OperStatus.up = true
is_up _ = false

pub data PortEvent : Type 0 where
  port_up port_down : Str → PortEvent

-- _ports is a dict by name, in the order of insertion.
unfoldable pub find_port : Str → List SwitchPort → Option SwitchPort
find_port name [] = none
find_port name (p ∷ ps) = if str_eq p.name name then some p else find_port name ps

put_port : SwitchPort → List SwitchPort → List SwitchPort
put_port port [] = port ∷ []
put_port port (p ∷ ps) = if str_eq p.name port.name then port ∷ ps else p ∷ put_port port ps

abbrev new_port : ℕ × Str → SwitchPort
new_port (id, name) = record { id = id; name = name; oper_status = OperStatus.unknown }

-- _get_ports, where the answer to `get` has the index and the name of each port
ports_after : List SwitchPort → List (ℕ × Str) → List SwitchPort
unfolding put_port
ports_after ports [] = ports
ports_after ports (r ∷ rs) = ports_after (put_port (new_port r) ports) rs

unfoldable pub get_ports : List (ℕ × Str) → List SwitchPort
unfolding ports_after
get_ports result = ports_after [] result

unfoldable pub set_status : Str → OperStatus → List SwitchPort → List SwitchPort
set_status name status [] = []
set_status name status (p ∷ ps) =
    if str_eq p.name name
    then record p { oper_status = status } ∷ ps
    else p ∷ set_status name status ps

-- `switch is not None and curr_up != prev_up`
unfoldable pub port_events : Bool → Str → Bool → Bool → List PortEvent
port_events false name prev_up curr_up = []
port_events true name true true = []
port_events true name false false = []
port_events true name false true = port_up name ∷ []
port_events true name true false = port_down name ∷ []

-- _update_port
unfoldable pub update_port :
    Bool → Str → OperStatus → List SwitchPort → Result (List SwitchPort × List PortEvent)
update_port has_switch name status ports = elim (find_port name ports) [
  | none ↦ err key_error
  | some port ↦ ok (
    set_status name status ports,
    port_events has_switch name (is_up port.oper_status) (is_up status),
  )
]

pub data GnmiUpdate : Type 0 where
  status_update : (name value : Str) → GnmiUpdate
  other_update : GnmiUpdate

-- _update
unfoldable pub update :
    Bool → GnmiUpdate → List SwitchPort → Result (List SwitchPort × List PortEvent)
update has_switch (status_update name value) ports = do
  status ← oper_status value
  update_port has_switch name status ports
update has_switch other_update ports = ok (ports, [])

-- `async for update in …`. The events that came before an error are left out.
unfoldable pub updates :
    Bool → List GnmiUpdate → List SwitchPort → Result (List SwitchPort × List PortEvent)
updates has_switch [] ports = ok (ports, [])
updates has_switch (u ∷ us) ports = do
  (next, now) ← update has_switch u ports
  (end, later) ← updates has_switch us next
  ok (end, now ++ later)

pub record SwitchPortList : Type 0 where
  pub ports : List SwitchPort
  pub subscribed : Bool

abbrev pub empty_ports : SwitchPortList
empty_ports = record { ports = []; subscribed = false }

-- With no ports there is no subscription.
subscribe_ports : List SwitchPort → List GnmiUpdate → Result SwitchPortList
subscribe_ports [] initial = ok empty_ports
subscribe_ports (p ∷ ps) initial = do
  (ports, none_emitted) ← updates false initial (p ∷ ps)
  ok (record { ports = ports; subscribed = true })

-- subscribe, with the answer to `get` and the updates that synchronise
unfoldable pub subscribe : List (ℕ × Str) → List GnmiUpdate → SwitchPortList → Result SwitchPortList
unfolding subscribe_ports
subscribe result initial l = do
  guard (not l.subscribed) assertion_error
  subscribe_ports (get_ports result) initial

-- listen, until the subscription ends
unfoldable pub listen : List GnmiUpdate → SwitchPortList → Result (SwitchPortList × List PortEvent)
listen us l = do
  guard l.subscribed assertion_error
  (ports, events) ← updates true us l.ports
  ok (record l { ports = ports }, events)

unfoldable pub close : SwitchPortList → SwitchPortList
close l = if l.subscribed then empty_ports else l
