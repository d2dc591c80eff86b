-- ===== src/Decode/Boot/Grub.antt =====
-- The text of a GRUB event.
use tcglog_parser.Common.{
  ◌+◌, ◌-◌, ◌≡◌, refl, ap, ◌∙◌, true, false, some, [], ◌∷◌, ◌++◌, arith, ltb, if◌then◌else◌, length,
  take, drop, length-append, take-append, drop-append,
}
use tcglog_parser.Errors.{ok}
use tcglog_parser.Go.Reader.{Bytes}
use tcglog_parser.Go.Text.{equal, has_prefix, trim_prefix, trim_suffix}
use tcglog_parser.Types.EventType
use tcglog_parser.EventData.{GrubStringEventType, grub_cmd, kernel_cmdline, grub_string}
use tcglog_parser.Decode.Boot.{
  kernel_cmdline_prefix, grub_cmd_prefix, grub_text, decode_event_data_grub,
}

-- The prefix of each kind of event.
abbrev pub prefix_of : GrubStringEventType → Bytes
prefix_of kernel_cmdline = kernel_cmdline_prefix
prefix_of grub_cmd = grub_cmd_prefix

has_prefix-append : (p s : Bytes) → has_prefix (p ++ s) p ≡ true
unfolding has_prefix
has_prefix-append [] [] = refl
has_prefix-append [] (c ∷ s) = refl
has_prefix-append (c ∷ p) s = ground (arith, has_prefix-append p s)

trim_prefix-append : (p s : Bytes) → trim_prefix (p ++ s) p ≡ s
unfolding trim_prefix
trim_prefix-append p s =
    ap (λ b. if b then drop (length p) (p ++ s) else p ++ s) (has_prefix-append p s)
    ∙ drop-append (length p) p s refl

trim_suffix-append : (t : Bytes) → trim_suffix (t ++ 0 ∷ []) (0 ∷ []) ≡ t
unfolding trim_suffix equal
trim_suffix-append t =
    let all = t ++ 0 ∷ [] in
    let size : length all ≡ length t + 1 = length-append t (0 ∷ []) in
    let long : ltb (length all) 1 ≡ false = ground (arith, size) in
    let cut : drop (length all - 1) all ≡ 0 ∷ [] =
      drop-append (length all - 1) t (0 ∷ []) (omega (arith, size)) in
    let ends : equal (drop (length all - 1) all) (0 ∷ []) ≡ true = ap (λ b. equal b (0 ∷ [])) cut in
    ap
      (λ b.
        if b
        then all
        else if equal (drop (length all - 1) all) (0 ∷ [])
        then take (length all - 1) all
        else all)
      long
    ∙ ap (λ b. if b then take (length all - 1) all else all) ends
    ∙ take-append (length all - 1) t (0 ∷ []) (omega (arith, size))

grub_text-append : (p t : Bytes) → grub_text p (p ++ (t ++ 0 ∷ [])) ≡ t
grub_text-append p t =
    ap (λ s. trim_suffix s (0 ∷ [])) (trim_prefix-append p (t ++ 0 ∷ [])) ∙ trim_suffix-append t

-- The GRUB decoder gives the kind and the text of an event of PCR 8 whose data is the prefix of the
-- kind, the text and a zero byte.
pub decode_event_data_grub-encode :
    (kind : GrubStringEventType) (text : Bytes)
    → decode_event_data_grub 8 EventType.ipl (prefix_of kind ++ (text ++ 0 ∷ []))
      ≡ ok (some (grub_string (prefix_of kind ++ (text ++ 0 ∷ [])) kind text))
unfolding decode_event_data_grub has_prefix
decode_event_data_grub-encode kernel_cmdline text =
    ap (λ t. ok (some (grub_string (kernel_cmdline_prefix ++ (text ++ 0 ∷ [])) kernel_cmdline t)))
      (grub_text-append kernel_cmdline_prefix text)
decode_event_data_grub-encode grub_cmd text =
    ap (λ t. ok (some (grub_string (grub_cmd_prefix ++ (text ++ 0 ∷ [])) grub_cmd t)))
      (grub_text-append grub_cmd_prefix text)
