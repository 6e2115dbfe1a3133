-- ===== src/Timeline/Store.antt =====
-- Store of store.go: one file of lines for each NPC, and the cache of last sequence numbers.
pub mod Linear
pub mod Filters
pub mod Grab
pub mod Shared
use Prim.Native.Char.{code}
use agent_rd.Common.{
  ℕ, zero, suc, ◌+◌, ◌-◌, ◌≤◌, ◌<◌, max, String, Bool, true, false, not, ◌&&◌, ◌||◌, Option, none,
  some, List, [], ◌∷◌, ◌++◌, ◌==◌, nat_eq, string_eq, list_eq, ltb, leb, if◌then◌else◌, length,
  last_n, Dict, lookup, insert, erase, Float64, flt,
}
use agent_rd.Domain.Value.{Fields, NumberText}
use agent_rd.Domain.Event.{
  Event, EventOptions, Fresh, Checked, Invalid, ok, err, to_map, event_from_map, new_event,
}
use agent_rd.Timeline.Lines.{newline, split, is_blank, tail_non_empty_lines}

-- encoding/json, unicode and bytes.TrimSpace, which the store calls.
pub record Env (F : Type 0) : Type 0 where
  pub numbers : NumberText F
  pub marshal : Fields F → Option (List ℕ)
  pub unmarshal : List ℕ → Option (Fields F)
  pub trim : List ℕ → List ℕ
  pub alphanumeric : ℕ → Bool
  -- What the n-th line of a read gets where it has no identifier or clock of its own.
  pub fresh_at : ℕ → Fresh F

pub data Error : Type 0 where
  invalid_npc_id io_error line_too_long bad_json no_event_name encode_error : Error
  bad_event : Invalid → Error

pub data Outcome (A : Type 0) : Type 0 where
  done : A → Outcome A
  failed : Error → Outcome A

-- The directory of timelines. An operation on a broken path fails.
pub record Disk : Type 0 where
  pub files : Dict (List ℕ) (List ℕ)
  pub broken : List ℕ → Bool

pub record Store : Type 0 where
  pub disk : Disk
  pub last_seq : Dict String ℕ

abbrev pub codes : String → List ℕ
codes String.[] = []
codes (String.◌∷◌ c s) = code c ∷ codes s

abbrev pub max_line_bytes : ℕ
max_line_bytes = 16777216

abbrev pub tail_chunk_size : ℕ
tail_chunk_size = 65536

abbrev pub suffix : List ℕ
suffix = codes ".jsonl"

-- GrabFilter. Sequence bounds are `*int`.
pub record GrabFilter (F : Type 0) : Type 0 where
  pub event_name : String
  pub event_names : List String
  pub tag : String
  pub tags : List String
  pub entity : String
  pub minimum_importance : Option F
  pub since_seq : Option ℕ
  pub before_seq : Option ℕ
  -- 0 stands for every limit <= 0.
  pub limit : ℕ

unfoldable pub contains : List String → String → Bool
contains [] wanted = false
contains (v ∷ values) wanted = v == wanted || contains values wanted

unfoldable pub intersects : List String → List String → Bool
unfolding contains
intersects set [] = false
intersects set (v ∷ values) = contains set v || intersects set values

abbrev pub with_name : String → List String → List String
with_name name names = if name == "" then names else name ∷ names

abbrev pub is_nil : List String → Bool
is_nil [] = true
is_nil (x ∷ xs) = false

module _ {F : Type 0} ⦃o : Float64 F⦄ where
  -- The `continue` tests of GrabTimeline, for an event that passes them all.
  unfoldable pub accepts : GrabFilter F → Event F → Bool
  unfolding contains intersects
  accepts f e =
      let names = with_name f.event_name f.event_names in
      let tag_set = with_name f.tag f.tags in
      (is_nil names || contains names e.event_name)
      && ((is_nil tag_set || intersects tag_set e.tags)
          && ((f.entity == "" || contains e.entities f.entity)
              && ((elim f.minimum_importance [
                | none ↦ true
                | some least ↦ elim e.importance [ none ↦ false | some x ↦ not (flt x least) ]
              ])
                  && ((elim f.since_seq [ none ↦ true | some n ↦ ltb n e.seq ])
                      && (elim f.before_seq [ none ↦ true | some n ↦ ltb e.seq n ])))))

  unfoldable pub select : GrabFilter F → List (Event F) → List (Event F)
  unfolding accepts
  select f [] = []
  select f (e ∷ es) = let rest = select f es in if accepts f e then e ∷ rest else rest

  unfoldable pub truncate : ℕ → List (Event F) → List (Event F)
  truncate limit events =
      if ltb 0 limit && ltb limit (length events) then last_n limit events else events

module _ {F : Type 0} ⦃o : Float64 F⦄ (env : Env F) where
  -- unicode.IsLetter || unicode.IsNumber: exact on ASCII, by a table above it.
  unfoldable pub is_safe : ℕ → Bool
  is_safe c =
      if ltb c 128
      then (leb b'a' c && leb c b'z')
        || ((leb b'A' c && leb c b'Z')
            || ((leb b'0' c && leb c b'9') || (c == b'-' || (c == b'_' || c == b'.'))))
      else env.alphanumeric c

  unfoldable pub sanitize : List ℕ → List ℕ
  unfolding is_safe
  sanitize [] = []
  sanitize (c ∷ s) = (if is_safe c then c else b'_') ∷ sanitize s

  -- PathFor, below the store's root.
  unfoldable pub path_for : String → Option (List ℕ)
  unfolding sanitize
  path_for npc_id =
      let name = sanitize (codes npc_id) in
      if name == [] || (name == b'.' ∷ [] || name == b'.' ∷ b'.' ∷ [])
      then none
      else some (name ++ suffix)

  -- decodeEventLine, for the n-th line.
  unfoldable pub decode_event_line : ℕ → List ℕ → Outcome (Event F)
  unfolding event_from_map
  decode_event_line n line = elim (env.unmarshal line) [
    | none ↦ failed bad_json
    | some m ↦ elim (event_from_map env.numbers (env.fresh_at n) m) [
      | ok e ↦ done e
      | err x ↦ failed (bad_event x)
    ]
  ]

  -- encodeEventLine, without its newline.
  unfoldable pub encode_event_line : Event F → Option (List ℕ)
  unfolding to_map
  encode_event_line e = env.marshal (to_map e)

  abbrev pub prepend : Event F → Outcome (List (Event F)) → Outcome (List (Event F))
  prepend e (done es) = done (e ∷ es)
  prepend e (failed x) = failed x

  -- The loop of readEvents. A line that does not fit the scanner's buffer stops it.
  unfoldable pub read_lines : ℕ → List (List ℕ) → Outcome (List (Event F))
  unfolding decode_event_line
  read_lines n [] = done []
  read_lines n (l ∷ ls) =
      let rest = read_lines (suc n) ls in
      if leb max_line_bytes (length l)
      then failed line_too_long
      else if is_blank env.trim l
      then rest
      else elim (decode_event_line n (env.trim l)) [ failed x ↦ failed x | done e ↦ prepend e rest ]

  -- readEvents: a file that does not exist is empty. The scanner yields no empty last line, which
  -- the loop would skip as blank.
  unfoldable pub read_events : List ℕ → Disk → Outcome (List (Event F))
  unfolding read_lines
  read_events path d = elim (lookup path d.files) [
    | none ↦ done []
    | some bytes ↦ if d.broken path then failed io_error else read_lines 1 (split bytes)
  ]

  abbrev pub max_seq : ℕ → List (Event F) → ℕ
  max_seq last [] = last
  max_seq last (e ∷ es) = max_seq (if ltb last e.seq then e.seq else last) es

  abbrev pub cached : String → ℕ → Store → Outcome ℕ × Store
  cached id last s = (done (suc last), record s { last_seq = insert id last s.last_seq })

  -- nextSeqLocked
  unfoldable pub next_seq : String → Store → Outcome ℕ × Store
  unfolding path_for read_events
  next_seq id s = elim (lookup id s.last_seq) [
    | some last ↦ (done (suc last), s)
    | none ↦ elim (path_for id) [
      | none ↦ (failed invalid_npc_id, s)
      | some path ↦ elim (read_events path s.disk) [
        | failed x ↦ (failed x, s)
        | done es ↦ cached id (max_seq 0 es) s
      ]
    ]
  ]

  abbrev pub contents : List ℕ → Disk → List ℕ
  contents path d = elim (lookup path d.files) [ none ↦ [] | some bytes ↦ bytes ]

  -- The write at the end of appendLocked.
  unfoldable pub write_event : List ℕ → Event F → Store → Outcome (Event F) × Store
  unfolding encode_event_line
  write_event path e s = elim (encode_event_line e) [
    | none ↦ (failed encode_error, s)
    | some line ↦ if s.disk.broken path then (failed io_error, s) else (
      done e,
      record s {
        disk = record s.disk {
          files = insert path (contents path s.disk ++ line ++ newline ∷ []) s.disk.files;
        };
        last_seq = insert e.npc_id e.seq s.last_seq;
      },
    )
  ]

  -- The event that appendLocked writes: one with a wrong sequence number goes through its map form.
  unfoldable pub repair : Fresh F → ℕ → Event F → Outcome (Event F)
  unfolding event_from_map to_map
  repair fresh expected e =
      if e.seq == expected
      then (if e.event_name == "" then failed no_event_name else done e)
      else elim (event_from_map env.numbers fresh (to_map (record e { seq = expected }))) [
        | ok r ↦ done r
        | err x ↦ failed (bad_event x)
      ]

  -- appendLocked, which is Append
  unfoldable pub append : Fresh F → Event F → Store → Outcome (Event F) × Store
  unfolding path_for next_seq repair write_event
  append fresh e s = elim (path_for e.npc_id) [
    | none ↦ (failed invalid_npc_id, s)
    | some path ↦
        let (seq, s') = next_seq e.npc_id s in
        elim seq [
          | failed x ↦ (failed x, s')
          | done expected ↦ elim (repair fresh expected e) [
            | failed x ↦ (failed x, s')
            | done e' ↦ write_event path e' s'
          ]
        ]
  ]

  -- AppendEvent
  unfoldable pub append_event :
      Fresh F → String → String → EventOptions F → Store → Outcome (Event F) × Store
  unfolding next_seq new_event append
  append_event fresh id name opts s =
      let (seq, s') = next_seq id s in
      elim seq [
        | failed x ↦ (failed x, s')
        | done n ↦ append fresh (new_event fresh n name id opts) s'
      ]

  -- AllEvents
  unfoldable pub all_events : String → Store → Outcome (List (Event F))
  unfolding path_for read_events
  all_events id s = elim (path_for id) [
    | none ↦ failed invalid_npc_id
    | some path ↦ read_events path s.disk
  ]

  unfoldable pub decode_all : ℕ → List (List ℕ) → Outcome (List (Event F))
  unfolding decode_event_line
  decode_all n [] = done []
  decode_all n (l ∷ ls) =
      let rest = decode_all (suc n) ls in
      elim (decode_event_line n l) [ failed x ↦ failed x | done e ↦ prepend e rest ]

  -- RecentEvents
  unfoldable pub recent_events : String → ℕ → Store → Outcome (List (Event F))
  unfolding path_for decode_all tail_non_empty_lines
  recent_events id zero s = done []
  recent_events id (suc n) s = elim (path_for id) [
    | none ↦ failed invalid_npc_id
    | some path ↦ elim (lookup path s.disk.files) [
      | none ↦ done []
      | some bytes ↦
          if s.disk.broken path
          then failed io_error
          else decode_all 1 (tail_non_empty_lines env.trim tail_chunk_size bytes (suc n))
    ]
  ]

  -- GrabTimeline
  unfoldable pub grab_timeline : String → GrabFilter F → Store → Outcome (List (Event F))
  unfolding all_events select truncate
  grab_timeline id f s = elim (all_events id s) [
    | failed x ↦ failed x
    | done es ↦ done (truncate f.limit (select f es))
  ]

  -- HasTimeline
  unfoldable pub has_timeline : String → Store → Bool
  unfolding path_for
  has_timeline id s = elim (path_for id) [
    | none ↦ false
    | some path ↦ elim (lookup path s.disk.files) [ none ↦ false | some bytes ↦ true ]
  ]

  -- Delete. A missing file is no error, and the cached number goes either way.
  unfoldable pub delete : String → Store → Outcome (Unit {0}) × Store
  unfolding path_for
  delete id s = elim (path_for id) [
    | none ↦ (failed invalid_npc_id, s)
    | some path ↦ if s.disk.broken path then (failed io_error, s) else (
      done tt,
      record s {
        disk = record s.disk { files = erase path s.disk.files };
        last_seq = erase id s.last_seq;
      },
    )
  ]
