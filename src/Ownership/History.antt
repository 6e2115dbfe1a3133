-- ===== src/Ownership/History.antt =====
-- About sequences of calls on the ownership manager of ownership.go.
use agent_rd.Common.{
  String, ◌≡◌, refl, ◌≢◌, sym, ap, ◌∙◌, subst, none, some, List, [], ◌∷◌, ◌++◌, Float64, lookup,
  insert, keys, keys-insert, All, All-insert, All-lookup, Distinct, Distinct-append, Option-cases,
  lookup-insert_self, lookup-none-keys, string_eq, inl, inr,
}
use agent_rd.Ownership.Types.{State, rockstar, Transition}
use agent_rd.Ownership.Record.{Record, Effect, new_record}
use agent_rd.Ownership.Manager.{npc_of, Manager, Op, new_manager, record_of, effect, call, run}
use agent_rd.Ownership.Edges.{Cause, Follows, cause_of, effect-Follows}

module _ {F : Type 0} where
  -- A history leads from one state to another, each transition from where the last one ended, all of
  -- one NPC.
  abbrev pub Leads : String → State → List (Transition F) → State → Type 0
  Leads id s [] t = s ≡ t
  Leads id s (x ∷ xs) t = (x.npc_id ≡ id) × (x.from ≡ s) × Leads id x.to xs t

  Leads-append :
      (id : String) (s t : State) (xs : List (Transition F)) (x : Transition F)
      → Leads id s xs t
      → x.npc_id ≡ id
      → x.from ≡ t
      → Leads id s (xs ++ x ∷ []) x.to
  Leads-append id s t [] x h n e = (n, e ∙ sym h, refl)
  Leads-append id s t (y ∷ xs) x h n e = (h.0, h.1, Leads-append id y.to t xs x h.2 n e)

  -- A record under a key: it is the key's, and its history leads from ROCKSTAR to its state.
  abbrev pub Explained : String × Record F → Type 0
  Explained (id, r) = (r.npc_id ≡ id) × Leads id rockstar r.history r.state

  pub record IsValid (m : Manager F) : Type 0 where
    pub ordered : keys m.records ≡ m.order
    pub distinct : Distinct m.order
    pub explained : All Explained m.records

  pub new_manager-IsValid : IsValid new_manager
  new_manager-IsValid = record { ordered = refl; distinct = tt; explained = tt }

  -- The record that a method gets, in the manager with that record entered.
  record_of-IsValid :
      (id : String) (m : Manager F)
      → IsValid m
      → let (m', r) = record_of id m in
        IsValid m' × (lookup id m'.records ≡ some r) × Explained (id, r)
  unfolding record_of
  record_of-IsValid id m v = elim (Option-cases (lookup id m.records)) [
    | inr (r, e) ↦ rw (e, record_of) (v, e, All-lookup Explained id r m.records v.explained e)
    | inl e ↦ rw (e, record_of) (entered e, lookup-insert_self id _ m.records, (refl, refl))
  ]
    where
      entered :
          lookup id m.records ≡ none
          → IsValid
              (record { records = insert id (new_record id) m.records; order = m.order ++ id ∷ [] })
      entered e = record {
        ordered = keys-insert id _ m.records ∙ rw e (ap (λ ks. ks ++ id ∷ []) v.ordered);
        distinct =
            Distinct-append m.order id
              (subst (All (λ y. id ≢ y)) v.ordered (lookup-none-keys id m.records e)) v.distinct;
        explained = All-insert Explained id _ m.records (refl, refl) v.explained;
      }

  Follows-Explained :
      (id : String) (c : Cause) (r : Record F) (e : Effect F)
      → Follows c r e
      → Explained (id, r)
      → Explained (id, e.0)
  Follows-Explained id c r (r', none) f x = subst (λ q. Explained (id, q)) (sym f) x
  Follows-Explained id c r (r', some t) f x =
      let (from, to, tid, rid, hist, edge) = f in
      let step = Leads-append id rockstar r.state r.history t x.1 (tid ∙ x.0) from in
      (
        rid ∙ x.0,
        subst (Leads id rockstar r'.history) to
            (subst (λ h. Leads id rockstar h t.to) (sym hist) step),
      )

  -- A write under a key that is there.
  rewrite-IsValid :
      (id : String) (m : Manager F) (r r' : Record F)
      → IsValid m
      → lookup id m.records ≡ some r
      → Explained (id, r')
      → IsValid (record m { records = insert id r' m.records })
  rewrite-IsValid id m r r' v e x = record {
    ordered = keys-insert id r' m.records ∙ rw e v.ordered;
    distinct = v.distinct;
    explained = All-insert Explained id r' m.records x v.explained;
  }

module _ {F : Type 0} ⦃o : Float64 F⦄ where
  call-IsValid : (c : Op F × String × F) (m : Manager F) → IsValid m → IsValid (call c m).0
  unfolding call
  call-IsValid (op, given, now) m v =
      let id = npc_of op given in
      let (m', r) = record_of id m in
      let (v', found, x) = record_of-IsValid id m v in
      rewrite-IsValid id m' r (effect op now r).0 v' found
        (Follows-Explained id (cause_of op) r (effect op now r) (effect-Follows op now r) x)

  run_from-IsValid :
      (cs : List (Op F × String × F)) (m : Manager F) → IsValid m → IsValid (run cs m)
  unfolding run
  run_from-IsValid [] m v = v
  run_from-IsValid (c ∷ cs) m v = run_from-IsValid cs (call c m).0 (call-IsValid c m v)

  -- After any calls on a new manager, the order of first sight lists exactly the NPCs that have a
  -- record, each once, and every record's history is an unbroken chain of that NPC's transitions
  -- from ROCKSTAR to the record's present state.
  pub run-IsValid : (cs : List (Op F × String × F)) → IsValid (run cs new_manager)
  run-IsValid cs = run_from-IsValid cs new_manager new_manager-IsValid
