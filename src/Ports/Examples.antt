-- ===== src/Ports/Examples.antt =====
-- A switch with two ports, one of which goes up, and the theorem about it.
use finsy.Prelude.{
  ◌≡◌, refl, true, [], ◌∷◌, codes, ok, err, key_error, assertion_error, value_error,
}
use finsy.Ports.{
  OperStatus, status_update, SwitchPortList, empty_ports, subscribe, get_ports, updates, update,
  update_port, find_port, set_status, port_events, oper_status, listen, close,
}

abbrev two_ports : OperStatus → SwitchPortList
two_ports status = record {
  ports =
      record { id = 1; name = codes "a"; oper_status = OperStatus.down }
      ∷ record { id = 2; name = codes "b"; oper_status = status }
      ∷ [];
  subscribed = true;
}

down_at_first :
    subscribe
      ((1, codes "a") ∷ (2, codes "b") ∷ [])
      (status_update (codes "a") (codes "DOWN") ∷ status_update (codes "b") (codes "TESTING") ∷ [])
      empty_ports
    ≡ ok (two_ports OperStatus.testing)
unfolding subscribe get_ports updates update update_port find_port set_status port_events
    oper_status
down_at_first = refl

refused :
    (listen [] empty_ports ≡ err assertion_error)
    × (listen (status_update (codes "c") (codes "UP") ∷ []) (two_ports OperStatus.up)
        ≡ err key_error)
    × (listen (status_update (codes "b") (codes "?") ∷ []) (two_ports OperStatus.up)
        ≡ err value_error)
unfolding listen updates update update_port find_port oper_status
refused = (refl, refl, refl)

closed : close (two_ports OperStatus.up) ≡ empty_ports
unfolding close
closed = refl
