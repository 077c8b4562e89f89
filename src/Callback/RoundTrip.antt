-- ===== src/Callback/RoundTrip.antt =====
-- What a pressed button of src/queuer/notify.py comes back as.
use mathlib.Core.List.{append-nil}
use custom_queuer.Prelude.{
  Bool, Bool-cases, List, Option, [], ap, arith, exists, false, false≢true, inl, inr, none, not,
  refl, some, subst, take, true, ℕ, ◌&&◌, ◌++◌, ◌==◌, ◌∙◌, ◌∷◌, ◌≡◌,
}
use custom_queuer.Tables.{Text, text_eq}
use custom_queuer.JobEnv.Layers.{text_eq→≡}
use custom_queuer.Callback.{
  Decimal, Machine, all_hex, callback_actions, callback_data, callback_epoch, colon, epoch_tag_len,
  is_action, is_tag, last_tag, parse_callback, parse_parts, split_colons, tag_text,
}

unfoldable pub has_no_colon : Text → Bool
has_no_colon [] = true
has_no_colon (c ∷ cs) = not (c == colon) && has_no_colon cs

split_colons-part :
    (part rest : Text)
    → has_no_colon part ≡ true
    → split_colons (part ++ colon ∷ rest) ≡ part ∷ split_colons rest
unfolding split_colons has_no_colon
split_colons-part [] rest h = refl
split_colons-part (c ∷ part) rest h =
    let here_is : (c == colon) ≡ false = ground arith in
    rw (split_colons-part part rest (ground arith), here_is) refl

split_colons-last : (part : Text) → has_no_colon part ≡ true → split_colons part ≡ part ∷ []
unfolding split_colons has_no_colon
split_colons-last [] h = refl
split_colons-last (c ∷ part) h =
    let here_is : (c == colon) ≡ false = ground arith in
    rw (split_colons-last part (ground arith), here_is) refl

unfoldable pub none_has_colon : List Text → Bool
none_has_colon [] = true
none_has_colon (a ∷ texts) = has_no_colon a && none_has_colon texts

-- Each action is one of the list, and so has no colon.
has_no_colon-action :
    (actions : List Text) (action : Text)
    → none_has_colon actions ≡ true
    → exists (λ a. text_eq a action) actions ≡ true
    → has_no_colon action ≡ true
unfolding exists none_has_colon
has_no_colon-action [] action all h = absurd (false≢true h)
has_no_colon-action (a ∷ actions) action all h = elim (Bool-cases (text_eq a action)) [
  | inl same ↦ subst (λ t. has_no_colon t ≡ true) (text_eq→≡ a action same) (ground arith)
  | inr other ↦ has_no_colon-action actions action (ground arith) (ground arith)
]

has_no_colon-hex : (tag : Text) → all_hex tag ≡ true → has_no_colon tag ≡ true
unfolding all_hex has_no_colon
has_no_colon-hex [] h = refl
has_no_colon-hex (c ∷ tag) h = let rest = has_no_colon-hex tag in ground arith

-- An epoch is empty, or starts with a tag.
abbrev pub IsEpoch : Text → Type 0
IsEpoch [] = Unit
IsEpoch (c ∷ cs) = is_tag (take epoch_tag_len (c ∷ cs)) ≡ true

abbrev pub tag_of : Text → Option Text
tag_of [] = none
tag_of (c ∷ cs) = some (take epoch_tag_len (c ∷ cs))

-- `int(str(n))` is n, and `str(n)` is decimal, with no colon.
pub record IsFaithful (decimal : Decimal) : Type 0 where
  pub int_of-str_of : (n : ℕ) → decimal.int_of (decimal.str_of n) ≡ n
  pub str_of-is_decimal : (n : ℕ) → decimal.is_decimal (decimal.str_of n) ≡ true
  pub str_of-has_no_colon : (n : ℕ) → has_no_colon (decimal.str_of n) ≡ true

module _ (decimal : Decimal) (faithful : IsFaithful decimal) where
  abbrev tag_list : Text → List Text
  tag_list [] = []
  tag_list (c ∷ cs) = take epoch_tag_len (c ∷ cs) ∷ []

  split-last_parts :
      (job epoch : Text)
      → has_no_colon job ≡ true
      → IsEpoch epoch
      → split_colons (job ++ tag_text epoch) ≡ job ∷ tag_list epoch
  split-last_parts job [] clean is_epoch =
      ap split_colons (append-nil job) ∙ split_colons-last job clean
  split-last_parts job (c ∷ cs) clean is_epoch =
      split_colons-part job (take epoch_tag_len (c ∷ cs)) clean
      ∙ ap (◌∷◌ job) (
          split_colons-last (take epoch_tag_len (c ∷ cs))
            (has_no_colon-hex (take epoch_tag_len (c ∷ cs)) (ground arith)))

  split-callback_data :
      (cfg : Machine) (job_id : ℕ) (action : Text)
      → is_action action ≡ true
      → has_no_colon cfg.qur_id ≡ true
      → IsEpoch cfg.epoch
      → split_colons (callback_data decimal cfg job_id action)
        ≡ action ∷ cfg.qur_id ∷ decimal.str_of job_id ∷ tag_list cfg.epoch
  unfolding callback_data is_action none_has_colon has_no_colon
  split-callback_data cfg job_id action known no_id is_epoch =
      let clean = has_no_colon-action callback_actions action refl known in
      split_colons-part action _ clean
      ∙ ap (◌∷◌ action) (
          split_colons-part cfg.qur_id _ no_id
          ∙ ap (◌∷◌ cfg.qur_id) (
              split-last_parts (decimal.str_of job_id) cfg.epoch
                (faithful.str_of-has_no_colon job_id) is_epoch))

  parse_parts-tag_list :
      (action qur_id epoch : Text) (job_id : ℕ)
      → is_action action ≡ true
      → IsEpoch epoch
      → (parse_parts decimal (action ∷ qur_id ∷ decimal.str_of job_id ∷ tag_list epoch)
          ≡ some (action, qur_id, job_id))
        × (last_tag (action ∷ qur_id ∷ decimal.str_of job_id ∷ tag_list epoch) ≡ tag_of epoch)
  parse_parts-tag_list action qur_id [] job_id known is_epoch =
      (rw (known, faithful.str_of-is_decimal job_id, faithful.int_of-str_of job_id) refl, refl)
  parse_parts-tag_list action qur_id (c ∷ cs) job_id known is_epoch = (
    rw (known, faithful.str_of-is_decimal job_id, faithful.int_of-str_of job_id, is_epoch) refl,
    rw is_epoch refl,
  )

  -- A button with one of the actions, on a machine whose id has no colon and whose epoch is empty or
  -- starts with a tag, is read back as its action, machine and job, and its tag as that of the epoch.
  pub parse_callback-callback_data :
      (cfg : Machine) (job_id : ℕ) (action : Text)
      → is_action action ≡ true
      → has_no_colon cfg.qur_id ≡ true
      → IsEpoch cfg.epoch
      → (parse_callback decimal (callback_data decimal cfg job_id action)
          ≡ some (action, cfg.qur_id, job_id))
        × (callback_epoch (callback_data decimal cfg job_id action) ≡ tag_of cfg.epoch)
  unfolding parse_callback callback_epoch
  parse_callback-callback_data cfg job_id action known no_id is_epoch =
      let parts = split-callback_data cfg job_id action known no_id is_epoch in
      let read = parse_parts-tag_list action cfg.qur_id cfg.epoch job_id known is_epoch in
      (ap (parse_parts decimal) parts ∙ read.0, ap last_tag parts ∙ read.1)
