-- ===== src/Timeline/Store/Linear.antt =====
-- About appending to a timeline of store.go.
use agent_rd.Common.{
  ℕ, suc, ◌+◌, ◌≡◌, refl, sym, ◌∙◌, ap, subst, ◌≢◌, ◌⊎◌, inl, inr, String, true, false, none, some,
  List, [], ◌∷◌, ◌++◌, arith, ◌==◌, nat_eq, nat_beq, string_eq, list_eq, ltb, leb, if◌then◌else◌,
  length, All, lookup, insert, lookup-insert_self, lookup-insert_ne, Float64,
}
use mathlib.Core.List.{append_assoc}
use agent_rd.Domain.Event.{
  Event, EventOptions, Fresh, to_map, new_event, validate, clamp_importance,
}
use agent_rd.Domain.Event.Json.{json_map, IsExact, IsExactTime, event_from_map-json, reread}
use agent_rd.Domain.Value.{Fields, pos}
use agent_rd.Timeline.Lines.{newline, is_blank, unlines}
use agent_rd.Timeline.Tail.{IsLine, split-unlines}
use agent_rd.Timeline.Store.{
  Env, done, Store, max_line_bytes, path_for, decode_event_line, encode_event_line, read_lines,
  read_events, max_seq, next_seq, contents, write_event, repair, append, append_event, all_events,
}

-- encoding/json and bytes.TrimSpace: what the writer makes is one line with no space around it, and
-- reads back as its JSON value.
pub record JsonLaws {F : Type 0} (env : Env F) : Type 0 where
  pub trim_nil : env.trim [] ≡ []
  pub one_line : (m : Fields F) (l : List ℕ) → env.marshal m ≡ some l → IsLine l
  pub trimmed : (m : Fields F) (l : List ℕ) → env.marshal m ≡ some l → env.trim l ≡ l
  pub filled : (m : Fields F) (l : List ℕ) → env.marshal m ≡ some l → is_blank env.trim l ≡ false
  pub reads_back :
      (m : Fields F) (l : List ℕ)
      → env.marshal m ≡ some l
      → env.unmarshal l ≡ some (json_map env.numbers m)

module _ {F : Type 0} ⦃o : Float64 F⦄ (env : Env F) (laws : JsonLaws env) where
  -- The lines of a file and the events that they hold.
  abbrev pub Holds : ℕ → List (List ℕ) → List (Event F) → Type 0
  Holds n [] [] = Unit
  Holds n [] (e ∷ es) = ⊥
  Holds n (l ∷ ls) [] = ⊥
  Holds n (l ∷ ls) (e ∷ es) =
      IsLine l
      × (leb max_line_bytes (length l) ≡ false)
      × (is_blank env.trim l ≡ false)
      × (decode_event_line env n (env.trim l) ≡ done e)
      × Holds (suc n) ls es

  -- The sequence numbers from one on.
  abbrev pub Counts : ℕ → List (Event F) → Type 0
  Counts n [] = Unit
  Counts n (e ∷ es) = (e.seq ≡ n) × Counts (suc n) es

  Holds-lines : (n : ℕ) (ls : List (List ℕ)) (es : List (Event F)) → Holds n ls es → All IsLine ls
  Holds-lines n [] es h = tt
  Holds-lines n (l ∷ ls) [] h = absurd h
  Holds-lines n (l ∷ ls) (e ∷ es) h = (h.0, Holds-lines (suc n) ls es h.4)

  Holds-read_lines :
      (n : ℕ) (ls : List (List ℕ)) (es : List (Event F))
      → Holds n ls es
      → read_lines env n (ls ++ [] ∷ []) ≡ done es
  unfolding read_lines
  Holds-read_lines n [] [] h =
      let b : is_blank env.trim [] ≡ true = ground (arith, laws.trim_nil) in rw b
  Holds-read_lines n [] (e ∷ es) h = absurd h
  Holds-read_lines n (l ∷ ls) [] h = absurd h
  Holds-read_lines n (l ∷ ls) (e ∷ es) h = rw (h.1, h.2, h.3, Holds-read_lines (suc n) ls es h.4)

  Holds-snoc :
      (n k : ℕ) (ls : List (List ℕ)) (es : List (Event F)) (l : List ℕ) (e : Event F)
      → Holds n ls es
      → n + length es ≡ k
      → IsLine l
        × (leb max_line_bytes (length l) ≡ false)
        × (is_blank env.trim l ≡ false)
        × (decode_event_line env k (env.trim l) ≡ done e)
      → Holds n (ls ++ l ∷ []) (es ++ e ∷ [])
  Holds-snoc n k [] [] l e h q r = let q' : n ≡ k = omega arith in (r.0, r.1, r.2, rw q' r.3, tt)
  Holds-snoc n k [] (x ∷ es) l e h q r = absurd h
  Holds-snoc n k (x ∷ ls) [] l e h q r = absurd h
  Holds-snoc n k (x ∷ ls) (y ∷ es) l e h q r =
      (h.0, h.1, h.2, h.3, Holds-snoc (suc n) k ls es l e h.4 (omega arith) r)

  Counts-snoc :
      (n k : ℕ) (es : List (Event F)) (e : Event F)
      → Counts n es
      → n + length es ≡ k
      → e.seq ≡ k
      → Counts n (es ++ e ∷ [])
  Counts-snoc n k [] e c q h = (omega arith, tt)
  Counts-snoc n k (x ∷ es) e c q h = (c.0, Counts-snoc (suc n) k es e c.1 (omega arith) h)

  max_seq-Counts :
      (n : ℕ) (es : List (Event F)) → Counts (suc n) es → max_seq env n es ≡ n + length es
  max_seq-Counts n [] c = omega arith
  max_seq-Counts n (e ∷ es) c =
      let q : (if ltb n e.seq then e.seq else n) ≡ suc n = ground arith in
      rw q (omega (arith, max_seq-Counts (suc n) es c.1))

  unlines-snoc :
      (ls : List (List ℕ)) (l : List ℕ) → unlines (ls ++ l ∷ []) ≡ unlines ls ++ l ++ newline ∷ []
  unfolding unlines
  unlines-snoc [] l = refl
  unlines-snoc (x ∷ ls) l = simp (unlines-snoc ls l, append_assoc)

  -- A timeline file: its lines, its events, and the numbers of these.
  pub record Stored (path : List ℕ) (ls : List (List ℕ)) (es : List (Event F)) (s : Store)
      : Type 0 where
    pub there :
        ((lookup path s.disk.files ≡ none) × (ls ≡ []))
        ⊎ (lookup path s.disk.files ≡ some (unlines ls))
    pub holds : Holds 1 ls es
    pub counts : Counts 1 es
    pub works : s.disk.broken path ≡ false

  -- The cache has the last number, or nothing.
  abbrev pub IsCached : String → ℕ → Store → Type 0
  IsCached id n s = (lookup id s.last_seq ≡ none) ⊎ (lookup id s.last_seq ≡ some n)

  module _ (path : List ℕ) (ls : List (List ℕ)) (es : List (Event F)) (s : Store)
      (st : Stored path ls es s) where
    read_events-Stored : read_events env path s.disk ≡ done es
    unfolding read_events
    read_events-Stored = elim st.there [
      | inl (missing, nothing) ↦
          rw (missing, read_events) (empty es (subst (λ t. Holds 1 t es) nothing st.holds))
      | inr present ↦
          rw (present, read_events)
            (rw (st.works, split-unlines ls (Holds-lines 1 ls es st.holds))
              (Holds-read_lines 1 ls es st.holds))
    ]
      where
        empty : (xs : List (Event F)) → Holds 1 [] xs → done [] ≡ done xs
        empty [] h = refl
        empty (x ∷ xs) h = absurd h

    contents-Stored : contents env path s.disk ≡ unlines ls
    unfolding unlines
    contents-Stored = elim st.there [
      | inl (missing, nothing) ↦ rw (missing, contents) (rw nothing)
      | inr present ↦ rw (present, contents)
    ]

    next_seq-Stored :
        (id : String)
        → path_for env id ≡ some path
        → IsCached id (length es) s
        → (s' : Store) × (next_seq env id s ≡ (done (suc (length es)), s'))
          × (s'.disk ≡ s.disk)
          × (lookup id s'.last_seq ≡ some (length es))
          × ((k : String) → k ≢ id → lookup k s'.last_seq ≡ lookup k s.last_seq)
    unfolding next_seq
    next_seq-Stored id p (inr known) = (s, ground arith, refl, known, λ k ne. refl)
    next_seq-Stored id p (inl unknown) = (
      record s { last_seq = insert id (length es) s.last_seq },
      ground (arith, read_events-Stored, max_seq-Counts 0 es st.counts),
      refl,
      lookup-insert_self id (length es) s.last_seq,
      λ k ne. lookup-insert_ne k id (length es) s.last_seq ne,
    )

  -- An event that can be written as a line: named, with integers that JSON keeps, and not too long.
  pub record IsWritable (e : Event F) (line : List ℕ) : Type 0 where
    pub name_given : (e.event_name == "") ≡ false
    pub npc_given : (e.npc_id == "") ≡ false
    pub exact_seq : IsExact env.numbers (pos e.seq)
    pub exact_time : IsExactTime env.numbers e.game_time
    pub encodes : encode_event_line env e ≡ some line
    pub fits : leb max_line_bytes (length line) ≡ false

  -- The event as a reader of the n-th line has it.
  abbrev pub as_read : ℕ → Event F → Event F
  as_read n e = record (reread env.numbers (env.fresh_at n) e) {
    importance = clamp_importance e.importance;
  }

  decodes-IsWritable :
      (n k : ℕ) (e : Event F) (line : List ℕ)
      → IsWritable e line
      → e.seq ≡ suc k
      → decode_event_line env n (env.trim line) ≡ done (as_read n e)
  unfolding decode_event_line encode_event_line validate
  decodes-IsWritable n k e line w q =
      rw
        (
          laws.trimmed (to_map e) line w.encodes,
          laws.reads_back (to_map e) line w.encodes,
          decode_event_line,
        )
        (ground
          (arith, event_from_map-json env.numbers (env.fresh_at n) e w.exact_seq w.exact_time))

  write_event-Stored :
      (path : List ℕ) (ls : List (List ℕ)) (es : List (Event F)) (s : Store) (e : Event F)
      (line : List ℕ)
      → Stored path ls es s
      → IsWritable e line
      → e.seq ≡ suc (length es)
      → (s' : Store) × (write_event env path e s ≡ (done e, s'))
        × Stored path (ls ++ line ∷ []) (es ++ as_read (suc (length es)) e ∷ []) s'
        × (lookup e.npc_id s'.last_seq ≡ some (suc (length es)))
        × ((k : String) → k ≢ e.npc_id → lookup k s'.last_seq ≡ lookup k s.last_seq)
  unfolding write_event
  write_event-Stored path ls es s e line st w q =
      let bytes = contents-Stored path ls es s st in
      let decodes = decodes-IsWritable (suc (length es)) (length es) e line w q in
      (
        record s {
          disk = record s.disk {
            files = insert path (contents env path s.disk ++ line ++ newline ∷ []) s.disk.files;
          };
          last_seq = insert e.npc_id e.seq s.last_seq;
        },
        rw (w.encodes, write_event) (rw st.works),
        record {
          there = inr (
              lookup-insert_self path _ s.disk.files
              ∙ ap some (rw bytes (sym (unlines-snoc ls line))));
          holds =
              Holds-snoc 1 (suc (length es)) ls es line (as_read (suc (length es)) e) st.holds
                (omega arith)
                (
                  laws.one_line (to_map e) line w.encodes,
                  w.fits,
                  laws.filled (to_map e) line w.encodes,
                  decodes,
                );
          counts =
              Counts-snoc 1 (suc (length es)) es (as_read (suc (length es)) e) st.counts
                (omega arith) q;
          works = st.works;
        },
        lookup-insert_self e.npc_id e.seq s.last_seq ∙ ap some q,
        λ k ne. lookup-insert_ne k e.npc_id e.seq s.last_seq ne,
      )

  -- The store after its cache is filled still holds the file.
  Stored-disk :
      (path : List ℕ) (ls : List (List ℕ)) (es : List (Event F)) (s s' : Store)
      → s'.disk ≡ s.disk
      → Stored path ls es s
      → Stored path ls es s'
  Stored-disk path ls es s s' e st = record {
    there = rw e st.there;
    holds = st.holds;
    counts = st.counts;
    works = rw e st.works;
  }

  append-Stored :
      (fresh : Fresh F) (e : Event F) (line path : List ℕ) (ls : List (List ℕ))
      (es : List (Event F)) (s : Store)
      → path_for env e.npc_id ≡ some path
      → Stored path ls es s
      → IsCached e.npc_id (length es) s
      → IsWritable e line
      → e.seq ≡ suc (length es)
      → (s' : Store) × (append env fresh e s ≡ (done e, s'))
        × Stored path (ls ++ line ∷ []) (es ++ as_read (suc (length es)) e ∷ []) s'
        × (lookup e.npc_id s'.last_seq ≡ some (suc (length es)))
        × ((k : String) → k ≢ e.npc_id → lookup k s'.last_seq ≡ lookup k s.last_seq)
  unfolding append repair
  append-Stored fresh e line path ls es s p st c w q =
      let (s₁, next, same, known, others) = next_seq-Stored path ls es s st e.npc_id p c in
      let (s₂, written, st₂, cached, others₂) =
        write_event-Stored path ls es s₁ e line (Stored-disk path ls es s s₁ same st) w q in
      let right : nat_beq e.seq (suc (length es)) ≡ true = ground arith in
      (
        s₂,
        rw (p, append)
            (rw (ap (λ x. x.0) next) (rw (right, w.name_given) (rw (ap (λ x. x.1) next) written))),
        st₂,
        cached,
        λ k ne. others₂ k ne ∙ others k ne,
      )

  new_event-fields :
      (fresh : Fresh F) (n : ℕ) (name id : String) (opts : EventOptions F)
      → ((new_event fresh n name id opts).npc_id ≡ id) × ((new_event fresh n name id opts).seq ≡ n)
  unfolding new_event
  new_event-fields fresh n name id opts = ground arith

  -- Appending to a timeline of n events, whose lines the store wrote and which count from 1 to n,
  -- with the cache empty or at n: the new event gets number n + 1, the file one line more, and a
  -- reader gets all the old events and then the new one, numbered from 1 to n + 1; the cache is at
  -- n + 1, and another NPC's cache entry is as it was. So timelines stay linear.
  pub append_event-Stored :
      (fresh : Fresh F) (id other name : String) (opts : EventOptions F) (line path : List ℕ)
      (ls : List (List ℕ)) (es : List (Event F)) (s : Store)
      → other ≢ id
      → path_for env id ≡ some path
      → Stored path ls es s
      → IsCached id (length es) s
      → IsWritable (new_event fresh (suc (length es)) name id opts) line
      → let e = new_event fresh (suc (length es)) name id opts in
        let es' = es ++ as_read (suc (length es)) e ∷ [] in
        (s' : Store) × (append_event env fresh id name opts s ≡ (done e, s'))
        × Stored path (ls ++ line ∷ []) es' s'
        × (all_events env id s' ≡ done es')
        × (lookup id s'.last_seq ≡ some (suc (length es)))
        × (lookup other s'.last_seq ≡ lookup other s.last_seq)
  unfolding append_event all_events
  append_event-Stored fresh id other name opts line path ls es s ne p st c w =
      let (s₁, next, same, known, others) = next_seq-Stored path ls es s st id p c in
      let (npc, seq) = new_event-fields fresh (suc (length es)) name id opts in
      let e = new_event fresh (suc (length es)) name id opts in
      let (s₂, appended, st₂, cached, others₂) =
        append-Stored fresh e line path ls es s₁ (rw npc p) (Stored-disk path ls es s s₁ same st)
          (rw npc (inr known)) w seq in
      (
        s₂,
        rw (ap (λ x. x.0) next, append_event) (rw (ap (λ x. x.1) next) appended),
        st₂,
        rw (p, all_events) (read_events-Stored path _ _ s₂ st₂),
        rw (← npc) cached,
        others₂ other (rw npc ne) ∙ others other ne,
      )
