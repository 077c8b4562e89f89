-- ===== src/Callback.antt =====
-- The buttons of src/queuer/notify.py: a button carries an action, the id of a machine, a job and
-- the epoch of the machine's database as one text, which comes back when it is pressed.
pub mod RoundTrip
use custom_queuer.Prelude.{
  Bool, List, Option, [], codes, exists, if◌then◌else◌, leb, length, none, not, select, some, take,
  true, ℕ, ◌&&◌, ◌++◌, ◌==◌, ◌||◌, ◌∷◌,
}
use custom_queuer.Tables.{Text, text_eq}

-- str, int and str.isdecimal on the id of a job.
pub record Decimal : Type 0 where
  pub str_of : ℕ → Text
  pub int_of : Text → ℕ
  pub is_decimal : Text → Bool

abbrev pub colon : ℕ
colon = b':'

-- data.split(":")
abbrev pub cons_first : ℕ → List Text → List Text
cons_first c [] = (c ∷ []) ∷ []
cons_first c (part ∷ parts) = (c ∷ part) ∷ parts

unfoldable pub split_colons : Text → List Text
split_colons [] = [] ∷ []
split_colons (c ∷ cs) =
    let parts = split_colons cs in if c == colon then [] ∷ parts else cons_first c parts

-- CALLBACK_ACTIONS
abbrev pub callback_actions : List Text
callback_actions =
    codes "rq"
    ∷ codes "sh"
    ∷ codes "lg"
    ∷ codes "lc"
    ∷ codes "rl"
    ∷ codes "cn"
    ∷ codes "ps"
    ∷ codes "pl"
    ∷ []

unfoldable pub is_action : Text → Bool
unfolding exists text_eq
is_action action = exists (λ a. text_eq a action) callback_actions

-- EPOCH_TAG_LEN hexadecimal digits
abbrev pub epoch_tag_len : ℕ
epoch_tag_len = 4

abbrev hex_digit : ℕ → Bool
hex_digit c = (leb b'0' c && leb c b'9') || (leb b'a' c && leb c b'f')

unfoldable pub all_hex : Text → Bool
all_hex [] = true
all_hex (c ∷ cs) = hex_digit c && all_hex cs

abbrev pub is_tag : Text → Bool
is_tag tag = length tag == epoch_tag_len && all_hex tag

-- What of `cfg` a button needs; an empty epoch is no epoch.
pub record Machine : Type 0 where
  pub qur_id : Text
  pub epoch : Text

abbrev pub tag_text : Text → Text
tag_text [] = []
tag_text (c ∷ cs) = colon ∷ take epoch_tag_len (c ∷ cs)

pub record Button : Type 0 where
  pub label : Text
  pub data_text : Text

module _ (decimal : Decimal) where
  open decimal use {str_of, int_of, is_decimal}

  -- The callback_data of `_button`.
  unfoldable pub callback_data : Machine → ℕ → Text → Text
  callback_data cfg job_id action =
      action ++ colon ∷ (cfg.qur_id ++ colon ∷ (str_of job_id ++ tag_text cfg.epoch))

  unfoldable pub button : Machine → ℕ → Text → Text → Button
  unfolding callback_data
  button cfg job_id action label = record {
    label = label;
    data_text = callback_data cfg job_id action;
  }

  -- `requeue`, `details` and `logs` are the labels.
  unfoldable pub details_markup : (details logs : Text) → Machine → ℕ → List (List Button)
  unfolding button
  details_markup details logs cfg job_id =
      (button cfg job_id (codes "sh") details ∷ button cfg job_id (codes "lg") logs ∷ []) ∷ []

  unfoldable pub job_markup : (requeue details logs : Text) → Machine → ℕ → List (List Button)
  unfolding button
  job_markup requeue details logs cfg job_id =
      (button cfg job_id (codes "rq") requeue ∷ button cfg job_id (codes "sh") details ∷ [])
      ∷ (button cfg job_id (codes "lg") logs ∷ [])
      ∷ []

  abbrev pub parse_parts : List Text → Option (Text × Text × ℕ)
  parse_parts (action ∷ qur_id ∷ job ∷ []) =
      if is_action action && is_decimal job then some (action, qur_id, int_of job) else none
  parse_parts (action ∷ qur_id ∷ job ∷ tag ∷ []) =
      if is_action action && is_decimal job && is_tag tag
      then some (action, qur_id, int_of job)
      else none
  parse_parts _ = none

  unfoldable pub parse_callback : Text → Option (Text × Text × ℕ)
  unfolding split_colons is_action all_hex
  parse_callback data_text = parse_parts (split_colons data_text)

abbrev pub last_tag : List Text → Option Text
last_tag (action ∷ qur_id ∷ job ∷ tag ∷ []) = if is_tag tag then some tag else none
last_tag _ = none

-- The text has three colons when it has four parts.
unfoldable pub callback_epoch : Text → Option Text
unfolding split_colons all_hex
callback_epoch data_text = last_tag (split_colons data_text)

-- `rows = [[b for b in row if ...] for row in ...]`, without the empty rows.
abbrev nonempty_row : List Button → List (List Button) → List (List Button)
nonempty_row [] rows = rows
nonempty_row (b ∷ row) rows = (b ∷ row) ∷ rows

unfoldable pub without_button : Text → List (List Button) → List (List Button)
unfolding select text_eq
without_button data_text [] = []
without_button data_text (row ∷ rows) =
    nonempty_row (select (λ b. not (text_eq b.data_text data_text)) row)
      (without_button data_text rows)
