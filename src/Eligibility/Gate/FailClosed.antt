-- ===== src/Eligibility/Gate/FailClosed.antt =====
-- About the verdict of CanActivate in eligibility.go.
use agent_rd.Common.{
  ℕ, String, Bool, true, false, ◌≡◌, refl, ◌≢◌, ◌↔◌, not, ◌&&◌, Option, none, some, List, [], ◌∷◌,
  ◌++◌, arith, All, ◌==◌, string_eq, if◌then◌else◌, length, length-append, ◌≤◌,
}
use agent_rd.Domain.Value.{Fields, get}
use agent_rd.Domain.Ped.{PedSnapshot}
use agent_rd.Eligibility.Gate.{
  Gate, Blacklist, codes, require_true, require_false, add_unknown, add_flags, flag_set,
  metadata_flags, add_blacklisted, matches_model, matches_name, field_reasons,
  any_safety_field_unknown, is_blacklisted, all_reasons, can_activate, dedupe_from, dedupe_reasons,
  contains_reason, result_of, unknown_reason, blacklist_reason,
}

snoc-ne-nil : (rs : List String) (r : String) → rs ++ r ∷ [] ≢ []
snoc-ne-nil [] r = λ p. cc
snoc-ne-nil (x ∷ rs) r = λ p. cc

require_true-nil :
    (v : Option Bool) (label : String) (rs : List String)
    → (require_true v label rs ≡ []) ↔ ((rs ≡ []) × (v ≡ some true))
unfolding require_true
require_true-nil none label rs = ((λ h. absurd (snoc-ne-nil _ _ h)), (λ h. absurd (cc h.1)))
require_true-nil (some true) label rs = ((λ h. (h, refl)), (λ h. h.0))
require_true-nil (some false) label rs = ((λ h. absurd (snoc-ne-nil _ _ h)), (λ h. absurd (cc h.1)))

require_false-nil :
    (v : Option Bool) (label : String) (rs : List String)
    → (require_false v label rs ≡ []) ↔ ((rs ≡ []) × (v ≡ some false))
unfolding require_false
require_false-nil none label rs = ((λ h. absurd (snoc-ne-nil _ _ h)), (λ h. absurd (cc h.1)))
require_false-nil (some false) label rs = ((λ h. (h, refl)), (λ h. h.0))
require_false-nil (some true) label rs = ((λ h. absurd (snoc-ne-nil _ _ h)), (λ h. absurd (cc h.1)))

-- A reason that is added where a test holds.
added-nil :
    (b : Bool) (rs : List String) (r : String)
    → ((if b then rs ++ r ∷ [] else rs) ≡ []) ↔ ((rs ≡ []) × (b ≡ false))
added-nil true rs r = ((λ h. absurd (snoc-ne-nil _ _ h)), (λ h. absurd (cc h.1)))
added-nil false rs r = ((λ h. (h, refl)), (λ h. h.0))

-- The required fields, each with its required value.
pub record IsConfirmed {F : Type 0} (ped : PedSnapshot F) : Type 0 where
  pub entity : (ped.entity_id == "") ≡ false
  pub ped_confirmed : ped.is_ped ≡ some true
  pub human : ped.is_human ≡ some true
  pub alive : ped.is_alive ≡ some true
  pub not_player : ped.is_player ≡ some false
  pub not_story : ped.is_story_character ≡ some false
  pub not_mission : ped.is_mission_owned ≡ some false
  pub not_scripted : ped.in_scripted_state ≡ some false
  pub not_cutscene : ped.in_cutscene ≡ some false
  pub not_blacklisted : ped.blacklisted ≡ some false

module _ {F : Type 0} where
  field_reasons-nil : (ped : PedSnapshot F) → field_reasons ped ≡ [] → IsConfirmed ped
  unfolding field_reasons
  field_reasons-nil ped h =
      let h9 = (require_false-nil ped.blacklisted "blacklisted" _).0 h in
      let h8 = (require_false-nil ped.in_cutscene "in_cutscene" _).0 h9.0 in
      let h7 = (require_false-nil ped.in_scripted_state "in_scripted_state" _).0 h8.0 in
      let h6 = (require_false-nil ped.is_mission_owned "is_mission_owned" _).0 h7.0 in
      let h5 = (require_false-nil ped.is_story_character "is_story_character" _).0 h6.0 in
      let h4 = (require_false-nil ped.is_player "is_player" _).0 h5.0 in
      let h3 = (require_true-nil ped.is_alive "is_alive" _).0 h4.0 in
      let h2 = (require_true-nil ped.is_human "is_human" _).0 h3.0 in
      let h1 = (require_true-nil ped.is_ped "is_ped" _).0 h2.0 in
      record {
        entity = ((added-nil (ped.entity_id == "") [] _).0 h1.0).1;
        ped_confirmed = h1.1;
        human = h2.1;
        alive = h3.1;
        not_player = h4.1;
        not_story = h5.1;
        not_mission = h6.1;
        not_scripted = h7.1;
        not_cutscene = h8.1;
        not_blacklisted = h9.1;
      }

  IsConfirmed-nil : (ped : PedSnapshot F) → IsConfirmed ped → field_reasons ped ≡ []
  unfolding field_reasons require_true require_false
  IsConfirmed-nil ped c = rw (
    c.entity, c.ped_confirmed, c.human, c.alive, c.not_player, c.not_story, c.not_mission,
    c.not_scripted, c.not_cutscene, c.not_blacklisted,
  )

  add_flags-nil :
      (m : Fields F) (flags : List String) (rs : List String)
      → (add_flags m flags rs ≡ [])
        ↔ ((rs ≡ []) × All (λ flag. flag_set (get flag m) ≡ false) flags)
  unfolding add_flags
  add_flags-nil m [] rs = ((λ h. (h, tt)), (λ h. h.0))
  add_flags-nil m (flag ∷ flags) rs = (
    (λ h.
        let h' = (add_flags-nil m flags _).0 h in
        let g = (added-nil (flag_set (get flag m)) rs _).0 h'.0 in (g.0, (g.1, h'.1))),
    (λ h.
        (add_flags-nil m flags _).1
          ((added-nil (flag_set (get flag m)) rs _).1 (h.0, h.1.0), h.1.1)),
  )

  IsConfirmed-known : (ped : PedSnapshot F) → IsConfirmed ped → any_safety_field_unknown ped ≡ false
  unfolding any_safety_field_unknown
  IsConfirmed-known ped c = rw (
    c.ped_confirmed, c.human, c.alive, c.not_player, c.not_story, c.not_mission, c.not_scripted,
    c.not_cutscene, c.not_blacklisted,
  )

  -- All that the gate must know of a ped before the runtime may act for it.
  pub record IsCleared (table : ℕ → ℕ) (b : Option Blacklist) (ped : PedSnapshot F) : Type 0 where
    pub confirmed : IsConfirmed ped
    pub unflagged : All (λ flag. flag_set (get flag ped.metadata) ≡ false) metadata_flags
    pub model_allowed : matches_model table b (codes ped.model) ≡ false
    pub name_allowed : matches_name table b (codes ped.name) ≡ false

  all_reasons-nil :
      (table : ℕ → ℕ) (g : Gate) (ped : PedSnapshot F)
      → (all_reasons table g ped ≡ []) ↔ IsCleared table g.blacklist ped
  unfolding all_reasons add_blacklisted is_blacklisted add_unknown
  all_reasons-nil table g ped = (
    (λ h.
        let h3 = (added-nil (is_blacklisted table g.blacklist ped) _ _).0 h in
        let h2 = (add_flags-nil ped.metadata metadata_flags _).0 h3.0 in
        let h1 = (added-nil _ (field_reasons ped) _).0 h2.0 in
        record {
          confirmed = field_reasons-nil ped h1.0;
          unflagged = h2.1;
          model_allowed = ground (arith, h3.1);
          name_allowed = ground (arith, h3.1);
        }),
    (λ c.
        let known : (g.block_if_uncertain
              && (any_safety_field_unknown ped
                  && not (contains_reason (field_reasons ped) unknown_reason)))
            ≡ false =
          ground (arith, IsConfirmed-known ped c.confirmed) in
        let listed : is_blacklisted table g.blacklist ped ≡ false =
          ground (arith, c.confirmed.not_story, c.confirmed.not_blacklisted) in
        (added-nil (is_blacklisted table g.blacklist ped) _ blacklist_reason).1 (
          (add_flags-nil ped.metadata metadata_flags _).1 (
            (added-nil _ (field_reasons ped) unknown_reason).1
                (IsConfirmed-nil ped c.confirmed, known),
            c.unflagged,
          ),
          listed,
        )),
  )

length-dedupe_from :
    (seen unique rs : List String) → length unique ≤ length (dedupe_from seen unique rs)
unfolding dedupe_from
length-dedupe_from seen unique [] = omega arith
length-dedupe_from seen unique (r ∷ rs) = ground (
  arith,
  length-dedupe_from seen unique rs,
  length-dedupe_from (r ∷ seen) (unique ++ r ∷ []) rs,
  length-append unique (r ∷ []),
)

eligible-result_of :
    (rs : List String) → ((result_of (dedupe_reasons rs)).eligible ≡ true) ↔ (rs ≡ [])
unfolding result_of dedupe_reasons dedupe_from
eligible-result_of [] = ((λ h. refl), (λ h. refl))
eligible-result_of (r ∷ rs) =
    ((λ h. ground (arith, length-dedupe_from (r ∷ []) (r ∷ []) rs)), (λ h. absurd (cc)))

module _ {F : Type 0} where
  -- A ped is eligible exactly if every safety field is confirmed with its safe value (a missing value
  -- is not), its entity id is not empty, no warning flag of the metadata is set, and neither its
  -- model nor its name matches the blacklist. Whether the gate blocks on uncertainty plays no part.
  pub eligible_iff :
      (table : ℕ → ℕ) (g : Gate) (ped : PedSnapshot F)
      → ((can_activate table g ped).eligible ≡ true) ↔ IsCleared table g.blacklist ped
  unfolding can_activate
  eligible_iff table g ped =
      let cleared = all_reasons-nil table g ped in
      let empty = eligible-result_of (all_reasons table g ped) in
      ((λ h. cleared.0 (empty.0 h)), (λ c. empty.1 (cleared.1 c)))
