-- ===== src/Controller/Members.antt =====
-- Adding and removing the switches of a controller.
use finsy.Prelude.{
  ◌≡◌, refl, ap, ◌∙◌, arith, true, false, none, some, Bool-cases, inl, inr, List, [], ◌∷◌, ◌++◌,
}
use finsy.Prelude.{Str, str_eq, ◌==◌, ok, err, value_error}
use finsy.Controller.{
  Switch, Controller, find_switch, add, remove, delete_switch, is_same, remove_from,
}

str_eq_self : (s : Str) → str_eq s s ≡ true
str_eq_self [] = refl
str_eq_self (a ∷ s) = ground (arith, str_eq_self s)

find_switch-append :
    (ss : List Switch) (s : Switch)
    → find_switch s.name ss ≡ none
    → find_switch s.name (ss ++ (s ∷ [])) ≡ some s
unfolding find_switch
find_switch-append [] s h = rw (str_eq_self s.name) refl
find_switch-append (t ∷ ss) s h =
    let rest = find_switch-append ss s in
    elim (Bool-cases (str_eq t.name s.name)) [
      | inl e ↦ absurd (ground arith)
      | inr e ↦ rw (e, find_switch) (rest (rw e at h))
    ]

delete_switch-append :
    (ss : List Switch) (s : Switch)
    → find_switch s.name ss ≡ none
    → delete_switch s.name (ss ++ (s ∷ [])) ≡ ss
unfolding find_switch delete_switch
delete_switch-append [] s h = rw (str_eq_self s.name) refl
delete_switch-append (t ∷ ss) s h =
    let rest = delete_switch-append ss s in
    elim (Bool-cases (str_eq t.name s.name)) [
      | inl e ↦ absurd (ground arith)
      | inr e ↦ rw (e, delete_switch) (ap (λ r. t ∷ r) (rest (rw e at h)))
    ]

add-stopped :
    (s : Switch) (c : Controller)
    → c.is_running ≡ false
    → find_switch s.name c.switches ≡ none
    → add s c ≡ (ok tt, record c { switches = c.switches ++ (s ∷ []) })
unfolding add
add-stopped s c stopped new = rw (new, stopped, add) refl

-- While the controller does not run, a switch of a new name can be added: it is found by its name, a
-- second one of the name is a ValueError, and removing it gives back the controller, with the
-- removal complete at once.
pub add_remove_lem :
    (s t : Switch) (c : Controller)
    → c.is_running ≡ false
    → find_switch s.name c.switches ≡ none
    → t.name ≡ s.name
    → ((add s c).0 ≡ ok tt)
      × (find_switch s.name (add s c).1.switches ≡ some s)
      × (add t (add s c).1 ≡ (err value_error, (add s c).1))
      × (remove s (add s c).1 ≡ (ok tt, record c { removed = s.id ∷ c.removed }))
unfolding add remove is_same remove_from
add_remove_lem s t c stopped new same =
    let there = find_switch-append c.switches s new in
    let there_too = ap (λ n. find_switch n (c.switches ++ (s ∷ []))) same ∙ there in
    let gone = delete_switch-append c.switches s new in
    let own : (s.id == s.id) ≡ true = ground arith in
    rw (add-stopped s c stopped new)
      (refl, there, rw (there_too, add) refl, rw (there, own, stopped, gone) refl)
