-- ===== src/Config/Metadata.antt =====
-- src/client-storage-configuration.ts: `assertSafeMetadata`.
use z_s_app.Prelude.{
  ℕ, ◌+◌, String, ◌||◌, List, [], ◌∷◌, ltb, nat_beq, codes, if◌then◌else◌, Result, ok, err, ◌>>◌,
  fail_if, string_eq,
}
use z_s_app.Config.Document.{
  Json, null, boolean, number, text, array, object, JsonItems, end, item, JsonFields, last, field,
}
use z_s_app.Config.Text.{utf16_length, is_prohibited_key}

pub data MetadataError : Type 0 where
  invalid_safe_metadata safe_metadata_too_large unsafe_metadata_key : MetadataError

-- the units that `JSON.stringify` prints for one code point of a text
abbrev printed : ℕ → ℕ
printed c =
    if nat_beq c b'"' || nat_beq c 92
    then 2
    else if nat_beq c 8 || nat_beq c 9 || nat_beq c 10 || nat_beq c 12 || nat_beq c 13
    then 2
    else if ltb c 32
    then 6
    else if ltb c 0x10000
    then 1
    else 2

sum_printed : List ℕ → ℕ
sum_printed [] = 0
sum_printed (c ∷ s) = printed c + sum_printed s

quoted : String → ℕ
unfolding sum_printed
quoted s = 2 + sum_printed (codes s)

-- the length of the text that `JSON.stringify` returns
unfoldable mutual
  unfolding quoted utf16_length

  pub printed_length : Json → ℕ
  printed_length null = 4
  printed_length (boolean b) = if b then 4 else 5
  printed_length (number s) = utf16_length (codes s)
  printed_length (text s) = quoted s
  printed_length (array items) = 2 + items_length items
  printed_length (object fields) = 2 + fields_length fields

  pub items_length : JsonItems → ℕ
  items_length end = 0
  items_length (item v end) = printed_length v
  items_length (item v rest) = printed_length v + 1 + items_length rest

  pub fields_length : JsonFields → ℕ
  fields_length last = 0
  fields_length (field k v last) = quoted k + 1 + printed_length v
  fields_length (field k v rest) = quoted k + 1 + printed_length v + 1 + fields_length rest

abbrev pub Checked : Type 0
Checked = Result MetadataError (Unit {0})

-- the bound on the printed length, before the fields are read
pub bounded : JsonFields → Checked → Checked
bounded fields checked = do
  fail_if (ltb 4096 (printed_length (object fields))) safe_metadata_too_large
  checked

-- The recursive calls of `assertSafeMetadata`, on a record's values and on an array's items.
unfoldable mutual
  pub assert_safe_fields : JsonFields → Checked
  assert_safe_fields last = ok tt
  assert_safe_fields (field k v rest) = do
    fail_if (is_prohibited_key k) unsafe_metadata_key
    assert_safe_value v
    assert_safe_fields rest

  pub assert_safe_value : Json → Checked
  assert_safe_value (array items) = assert_safe_items items
  assert_safe_value (object fields) = bounded fields (assert_safe_fields fields)
  assert_safe_value _ = ok tt

  pub assert_safe_items : JsonItems → Checked
  assert_safe_items end = ok tt
  assert_safe_items (item v rest) = do assert_safe_item v; assert_safe_items rest

  -- An array in an array is refused where it is reached, since it is no record.
  pub assert_safe_item : Json → Checked
  assert_safe_item (array items) = err invalid_safe_metadata
  assert_safe_item (object fields) = bounded fields (assert_safe_fields fields)
  assert_safe_item _ = ok tt

unfoldable pub assert_safe_metadata : Json → Checked
unfolding bounded assert_safe_fields printed_length
assert_safe_metadata (object fields) = bounded fields (assert_safe_fields fields)
assert_safe_metadata _ = err invalid_safe_metadata
