-- ===== src/Events/Facts/Copies.antt =====
-- What the payloads of normalizer.go hold under each key.
use agent_rd.Common.{
  String, false, not, ◌&&◌, ◌||◌, ◌≡◌, refl, sym, ap, subst, ◌∙◌, inl, inr, ◌==◌, string_eq,
  list_eq, nat_eq, if◌then◌else◌, arith, Bool-cases,
}
use agent_rd.Domain.Value.{Value, Fields, null, str, done, field, get, has}
use agent_rd.World.Snapshot.{get-set_field}
use agent_rd.Events.Facts.{copy_into, merge_text, is_envelope, copy_rest}

module _ {F : Type 0} where
  get-copy_into :
      (k : String) (m base : Fields F)
      → get k (copy_into m base) ≡ (if has k m then get k m else get k base)
  unfolding copy_into get has
  get-copy_into k done base = refl
  get-copy_into k (field j v m) base =
      ground (arith, get-set_field k j v (copy_into m base), get-copy_into k m base)

  -- What a spoken fact holds under a key: the caller's entry, or else the text.
  abbrev pub spoken : String → String → Fields F → Value F
  spoken k text extra = if has k extra then get k extra else if k == "text" then str text else null

  pub get-merge_text :
      (k text : String) (extra : Fields F) → get k (merge_text text extra) ≡ spoken k text extra
  unfolding merge_text get
  get-merge_text k text extra = get-copy_into k extra (field "text" (str text) done)

  -- What an action's fact holds under a key.
  abbrev pub kept_result : String → Fields F → Value F
  kept_result k raw = if k == "type" || (k == "npc_id" || k == "status") then null else get k raw

  get-copy_rest :
      (k : String) (m base : Fields F)
      → get k (copy_rest m base) ≡ (if has k m && not (is_envelope k) then get k m else get k base)
  unfolding copy_rest get has
  get-copy_rest k done base = refl
  get-copy_rest k (field j v m) base = elim (Bool-cases (k == j)) [
    | inl hit ↦
        let same : k ≡ j = (string_eq.decides k j).0 hit in
        let skipped : is_envelope k ≡ is_envelope j = ap is_envelope same in
        ground (arith, skipped, get-set_field k j v (copy_rest m base), get-copy_rest k m base)
    | inr miss ↦ ground (arith, get-set_field k j v (copy_rest m base), get-copy_rest k m base)
  ]

  get-none : (k : String) (m : Fields F) → has k m ≡ false → get k m ≡ null
  unfolding get has
  get-none k done h = refl
  get-none k (field j v m) h = ground (arith, get-none k m)

  -- What ActionResult starts the copy from.
  abbrev pub identity : Fields F → Fields F
  identity raw = field "tool" (get "tool" raw) (field "request_id" (get "request_id" raw) done)

  -- The payload of ActionResult keeps what the bridge reported.
  pub get-result :
      (k : String) (raw : Fields F) → get k (copy_rest raw (identity raw)) ≡ kept_result k raw
  unfolding get is_envelope
  get-result k raw = elim (Bool-cases (k == "tool")) [
    | inl hit ↦
        subst (λ n. get n (copy_rest raw (identity raw)) ≡ kept_result n raw)
          (sym ((string_eq.decides k "tool").0 hit))
          (get-copy_rest "tool" raw (identity raw) ∙ ground (arith, get-none "tool" raw))
    | inr no_tool ↦ elim (Bool-cases (k == "request_id")) [
      | inl hit ↦
          subst (λ n. get n (copy_rest raw (identity raw)) ≡ kept_result n raw)
            (sym ((string_eq.decides k "request_id").0 hit))
            (get-copy_rest "request_id" raw (identity raw)
              ∙ ground (arith, get-none "request_id" raw))
      | inr no_id ↦ get-copy_rest k raw (identity raw) ∙ ground (arith, get-none k raw)
    ]
  ]
