-- ===== src/Agent/Deferred.antt =====
-- The queue of deferred activations in runtime-go/internal/agent/scheduler.go: the reasons by NPC
-- (`deferredReason`) and the order of the queue (`deferredOrder`).
use agent_rd.Common.{
  String, Option, none, some, List, [], ◌∷◌, ◌≡◌, refl, sym, ap, ◌∙◌, subst, string_eq, arith, inl,
  inr, Dict, keys, empty_ordered, lookup, erase, Option-cases, Distinct,
}
use agent_rd.Common.Ordered.{Ordered, put, remove, IsOrdered, put-IsOrdered, remove-IsOrdered}

abbrev pub Deferred : Type 0
Deferred = Ordered String String

-- setDeferred: an NPC that is deferred again keeps its place.
unfoldable pub set_deferred : String → String → Deferred → Deferred
unfolding put
set_deferred id reason q = put id reason q

-- removeDeferred
unfoldable pub remove_deferred : String → Deferred → Deferred
unfolding remove
remove_deferred id q = elim (lookup id q.entries) [ none ↦ q | some reason ↦ remove id q ]

unfoldable pub pop_from : List String → Dict String String → Option (String × String) × Deferred
pop_from [] m = (none, record { entries = m; order = [] })
pop_from (id ∷ ids) m =
    let rest = pop_from ids m in
    elim (lookup id m) [
      | none ↦ rest
      | some reason ↦ (some (id, reason), record { entries = erase id m; order = ids })
    ]

-- popDeferred
unfoldable pub pop_deferred : Deferred → Option (String × String) × Deferred
unfolding pop_from
pop_deferred q = pop_from q.order q.entries

abbrev pub first : Dict String String → Option (String × String)
first [] = none
first (e ∷ m) = some e

abbrev pub later : Dict String String → Dict String String
later [] = []
later (e ∷ m) = m

pop_from-keys :
    (m : Dict String String)
    → Distinct (keys m)
    → pop_from (keys m) m ≡ (first m, record { entries = later m; order = keys (later m) })
unfolding pop_from lookup erase
pop_from-keys [] d = refl
pop_from-keys ((id, reason) ∷ m) d = ground (arith, string_eq.decides id id)

-- Deferring and forgetting keep the queue a list of the deferred NPCs, once each.
remove_deferred-IsOrdered :
    (id : String) (q : Deferred) → IsOrdered q → IsOrdered (remove_deferred id q)
unfolding remove_deferred
remove_deferred-IsOrdered id q h = elim (Option-cases (lookup id q.entries)) [
  | inl gone ↦ rw (gone, remove_deferred) h
  | inr (r, there) ↦ rw (there, remove_deferred) (remove-IsOrdered id q h)
]

later-Distinct : (m : Dict String String) → Distinct (keys m) → Distinct (keys (later m))
later-Distinct [] d = tt
later-Distinct (e ∷ m) d = d.1

pop_deferred-keys :
    (q : Deferred)
    → IsOrdered q
    → pop_deferred q
      ≡ (first q.entries, record { entries = later q.entries; order = keys (later q.entries) })
unfolding pop_deferred
pop_deferred-keys q h =
    ap (λ ids. pop_from ids q.entries) (sym h.listed)
    ∙ pop_from-keys q.entries (subst Distinct (sym h.listed) h.once)

pub data Change : Type 0 where
  deferring : String → String → Change
  forgetting : String → Change
  popping : Change

unfoldable pub change : Change → Deferred → Deferred
unfolding set_deferred remove_deferred pop_deferred
change (deferring id reason) q = set_deferred id reason q
change (forgetting id) q = remove_deferred id q
change popping q = (pop_deferred q).1

unfoldable pub changes : List Change → Deferred → Deferred
unfolding change
changes [] q = q
changes (c ∷ cs) q = changes cs (change c q)

change-IsOrdered : (c : Change) (q : Deferred) → IsOrdered q → IsOrdered (change c q)
unfolding change
change-IsOrdered (deferring id reason) q h = put-IsOrdered id reason q h
change-IsOrdered (forgetting id) q h = remove_deferred-IsOrdered id q h
change-IsOrdered popping q h =
    subst IsOrdered (sym (ap (λ x. x.1) (pop_deferred-keys q h))) (record {
      listed = refl;
      once = later-Distinct q.entries (subst Distinct (sym h.listed) h.once);
    })

changes-IsOrdered : (cs : List Change) (q : Deferred) → IsOrdered q → IsOrdered (changes cs q)
unfolding changes
changes-IsOrdered [] q h = h
changes-IsOrdered (c ∷ cs) q h = changes-IsOrdered cs (change c q) (change-IsOrdered c q h)

-- After any deferrals, removals and promotions on an empty queue, the queue lists the deferred NPCs
-- once each, and popDeferred takes the oldest with its reason (none where nobody waits) and leaves
-- the others as they were, in their order.
pub pop_deferred-changes :
    (cs : List Change)
    → let q = changes cs empty_ordered in
      IsOrdered q
      × ((pop_deferred q).0 ≡ first q.entries)
      × ((pop_deferred q).1.entries ≡ later q.entries)
      × ((pop_deferred q).1.order ≡ keys (later q.entries))
pop_deferred-changes cs =
    let ok = changes-IsOrdered cs empty_ordered (record { listed = refl; once = tt }) in
    let popped = pop_deferred-keys (changes cs empty_ordered) ok in
    (ok, ap (λ x. x.0) popped, ap (λ x. x.1.entries) popped, ap (λ x. x.1.order) popped)
