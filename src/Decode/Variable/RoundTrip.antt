-- ===== src/Decode/Variable/RoundTrip.antt =====
-- UEFI_VARIABLE_DATA, laid out as the UEFI specification has it, read back by the decoder.
use tcglog_parser.Common.{
  ℕ, ◌*◌, suc, ◌^◌, ◌≤◌, ◌<◌, ◌≡◌, refl, sym, ap, ◌∙◌, true, false, List, [], ◌∷◌, ◌++◌,
  append_assoc, append-nil, arith, All, length, take, length-append, take-append,
}
use tcglog_parser.Errors.{ok, bind-ok}
use tcglog_parser.Go.Reader.{Bytes, read_full, le_bytes}
use tcglog_parser.Go.Reader.Laws.{read_uint-le_bytes, read_full-append_of_eq, length-le_bytes}
use tcglog_parser.Go.Reader.Fields.{drop-add, le_at-skip, le_at-le_bytes}
use tcglog_parser.Go.Runtime.{Runtime, make_ok}
use tcglog_parser.Go.Unicode.{within}
use tcglog_parser.Utils.{unit_bytes, convert_utf16_to_string}
use tcglog_parser.EventData.{EfiGuid, efi_variable}
use tcglog_parser.Decode.Guid.{guid_of, read_guid, guid_bytes}
use tcglog_parser.Decode.Variable.{
  extract_character, extract_utf16_buffer, decode_event_data_efi_variable,
}

-- A character in UTF-16.
pub data Character : Type 0 where
  one_unit : ℕ → Character
  surrogates : ℕ → ℕ → Character

abbrev pub character_units : Character → List ℕ
character_units (one_unit u) = u ∷ []
character_units (surrogates u v) = u ∷ v ∷ []

-- A unit that is no high surrogate, or a high surrogate and a low one.
abbrev pub IsCharacter : Character → Type 0
IsCharacter (one_unit u) = (u < 2 ^ 16) × (within 0xd800 0xdc00 u ≡ false)
IsCharacter (surrogates u v) = (within 0xd800 0xdc00 u ≡ true) × (within 0xdc00 0xe000 v ≡ true)

abbrev pub all_units : List Character → List ℕ
all_units [] = []
all_units (c ∷ l) = character_units c ++ all_units l

unit_bytes-append : (a b : List ℕ) → unit_bytes (a ++ b) ≡ unit_bytes a ++ unit_bytes b
unfolding unit_bytes
unit_bytes-append [] b = refl
unit_bytes-append (u ∷ a) b =
    ap (◌++◌ (le_bytes 2 u)) (unit_bytes-append a b)
    ∙ sym (append_assoc (le_bytes 2 u) (unit_bytes a) (unit_bytes b))

within-lt : (low high u : ℕ) → high ≤ 256 ^ 2 → within low high u ≡ true → u < 256 ^ 2
within-lt low high u h e = ground arith

extract_character-character :
    (c : Character) (rest : Bytes)
    → IsCharacter c
    → extract_character (unit_bytes (character_units c) ++ rest) ≡ ok (character_units c, rest)
unfolding extract_character unit_bytes
extract_character-character (one_unit u) rest (small, no_surrogate) =
    ap extract_character (append_assoc (le_bytes 2 u) [] rest)
    ∙ bind-ok _ (read_uint-le_bytes 2 u rest (omega arith))
    ∙ rw no_surrogate
extract_character-character (surrogates u v) rest (high, low) =
    ap extract_character (
      append_assoc (le_bytes 2 u) (le_bytes 2 v ++ []) rest
      ∙ ap (◌++◌ (le_bytes 2 u)) (append_assoc (le_bytes 2 v) [] rest))
    ∙ bind-ok _ (
        read_uint-le_bytes 2 u (le_bytes 2 v ++ rest)
          (within-lt 0xd800 0xdc00 u (omega arith) high))
    ∙ rw high (
        bind-ok _ (read_uint-le_bytes 2 v rest (within-lt 0xdc00 0xe000 v (omega arith) low))
        ∙ rw low)

extract_utf16_buffer-all_units :
    (l : List Character) (rest : Bytes)
    → All IsCharacter l
    → extract_utf16_buffer (length l) (unit_bytes (all_units l) ++ rest) ≡ ok (all_units l, rest)
unfolding extract_utf16_buffer
extract_utf16_buffer-all_units [] rest h = unfold unit_bytes in refl
extract_utf16_buffer-all_units (c ∷ l) rest (h, hs) =
    ap (λ b. extract_utf16_buffer (suc (length l)) (b ++ rest))
      (unit_bytes-append (character_units c) (all_units l))
    ∙ ap (extract_utf16_buffer (suc (length l)))
        (append_assoc (unit_bytes (character_units c)) (unit_bytes (all_units l)) rest)
    ∙ bind-ok _ (extract_character-character c (unit_bytes (all_units l) ++ rest) h)
    ∙ bind-ok _ (extract_utf16_buffer-all_units l rest hs)

-- An EFI_GUID whose fields have their sizes.
pub record IsGuid (g : EfiGuid) : Type 0 where
  pub data1_fits : g.data1 < 2 ^ 32
  pub data2_fits : g.data2 < 2 ^ 16
  pub data3_fits : g.data3 < 2 ^ 16
  pub data4_length : length g.data4 ≡ 8

take_whole : (b : Bytes) → length b ≡ 8 → take 8 b ≡ b
take_whole b h = rw append-nil at (take-append 8 b [] h)

guid_of-guid_bytes : (g : EfiGuid) → IsGuid g → guid_of (guid_bytes g) ≡ g
unfolding guid_of guid_bytes
guid_of-guid_bytes g v =
    let a = le_bytes 4 g.data1 in
    let b = le_bytes 2 g.data2 in
    let c = le_bytes 2 g.data3 in
    let data1 = le_at-le_bytes 4 g.data1 (b ++ (c ++ g.data4)) v.data1_fits in
    let data2 =
      le_at-skip 4 0 2 a (b ++ (c ++ g.data4)) (length-le_bytes 4 g.data1)
      ∙ le_at-le_bytes 2 g.data2 (c ++ g.data4) v.data2_fits in
    let data3 =
      le_at-skip 4 2 2 a (b ++ (c ++ g.data4)) (length-le_bytes 4 g.data1)
      ∙ le_at-skip 2 0 2 b (c ++ g.data4) (length-le_bytes 2 g.data2)
      ∙ le_at-le_bytes 2 g.data3 g.data4 v.data3_fits in
    let data4 =
      ap (take 8) (
        drop-add 4 4 a (b ++ (c ++ g.data4)) (length-le_bytes 4 g.data1)
        ∙ drop-add 2 2 b (c ++ g.data4) (length-le_bytes 2 g.data2)
        ∙ drop-add 2 0 c g.data4 (length-le_bytes 2 g.data3))
      ∙ take_whole g.data4 v.data4_length in
    rw (data1, data2, data3, data4)

length-guid_bytes : (g : EfiGuid) → IsGuid g → length (guid_bytes g) ≡ 16
unfolding guid_bytes
length-guid_bytes g v =
    let rest = le_bytes 2 g.data2 ++ (le_bytes 2 g.data3 ++ g.data4) in
    omega (
      arith,
      length-append (le_bytes 4 g.data1) rest,
      length-append (le_bytes 2 g.data2) (le_bytes 2 g.data3 ++ g.data4),
      length-append (le_bytes 2 g.data3) g.data4,
      length-le_bytes 4 g.data1,
      length-le_bytes 2 g.data2,
      length-le_bytes 2 g.data3,
      v.data4_length,
    )

-- UEFI_VARIABLE_DATA
abbrev pub encode_variable : EfiGuid → List Character → Bytes → Bytes
encode_variable g name d =
    guid_bytes g
    ++ (le_bytes 8 (length name) ++ (le_bytes 8 (length d) ++ (unit_bytes (all_units name) ++ d)))

-- The parts of the structure, with what follows it.
encode_variable_parts :
    (g : EfiGuid) (name : List Character) (d rest : Bytes)
    → encode_variable g name d ++ rest
      ≡ guid_bytes g
        ++ (le_bytes 8 (length name)
            ++ (le_bytes 8 (length d) ++ (unit_bytes (all_units name) ++ (d ++ rest))))
encode_variable_parts g name d rest = simp append_assoc

pub record IsVariableData (rt : Runtime) (g : EfiGuid) (name : List Character) (d : Bytes)
    : Type 0 where
  pub guid : IsGuid g
  pub characters : All IsCharacter name
  pub name_fits : length name < 2 ^ 64
  pub data_fits : length d < 2 ^ 64
  pub allocates : length d ≤ rt.max_alloc

-- The decoder of EFI variable events reads back a UEFI_VARIABLE_DATA structure of the specification's
-- layout, whose name has no high surrogate but in surrogate pairs, and whose name length counts a
-- pair as one character, and it counts all bytes behind the structure as trailing; the fields fit
-- their sizes, and the variable's data can be allocated.
pub decode_event_data_efi_variable-encode :
    (rt : Runtime) (g : EfiGuid) (name : List Character) (d rest : Bytes)
    → IsVariableData rt g name d
    → decode_event_data_efi_variable rt (encode_variable g name d ++ rest)
      ≡ ok (
        efi_variable (record {
          bytes = encode_variable g name d ++ rest;
          variable_name = g;
          unicode_name = convert_utf16_to_string (all_units name);
          variable_data = d;
        }),
        length rest,
      )
unfolding decode_event_data_efi_variable read_guid
decode_event_data_efi_variable-encode rt g name d rest v =
    let room : 1 * length d ≤ rt.max_alloc = omega (arith, v.allocates) in
    let after_guid =
      le_bytes 8 (length name)
      ++ (le_bytes 8 (length d) ++ (unit_bytes (all_units name) ++ (d ++ rest))) in
    let guid =
      bind-ok (λ (b, s). ok (guid_of b, s))
        (ap (read_full 16) (encode_variable_parts g name d rest)
          ∙ read_full-append_of_eq 16 (guid_bytes g) after_guid (length-guid_bytes g v.guid))
      ∙ ap (λ x. ok (x, after_guid)) (guid_of-guid_bytes g v.guid) in
    bind-ok _ guid
    ∙ bind-ok _ (read_uint-le_bytes 8 (length name) _ v.name_fits)
    ∙ bind-ok _ (read_uint-le_bytes 8 (length d) _ v.data_fits)
    ∙ bind-ok _ (extract_utf16_buffer-all_units name (d ++ rest) v.characters)
    ∙ bind-ok _ (make_ok rt 1 (length d) room)
    ∙ bind-ok _ (read_full-append_of_eq (length d) d rest refl)
