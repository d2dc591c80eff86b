-- ===== src/Decode/DevicePath/Terminates.antt =====
-- The loop over the nodes of a device path ends.
use tcglog_parser.Common.{
  ℕ, zero, suc, ◌-◌, ◌<◌, refl, ◌≢◌, none, some, [], ◌++◌, Bool-cases, inl, inr, arith, ltb, ◌==◌,
  if◌then◌else◌, length, ap, ◌∙◌, sym,
}
use tcglog_parser.Errors.{
  Result, ok, err, panic, device_path_node_length, Yields, Yields-ok, Yields-bind, Yields-if,
}
use tcglog_parser.Go.Reader.{Bytes, read_full, read_uint}
use tcglog_parser.Go.Reader.Laws.{read_full-ok, read_uint-ok}
use tcglog_parser.Decode.DevicePath.Nodes.{node_to_string}
use tcglog_parser.Decode.DevicePath.{
  decode_node_body, decode_device_path_node, device_path_loop, decode_device_path,
}

decode_node_body-shorter :
    (t : ℕ) (s : Bytes) → Yields (λ p. length p.1 < length s) (decode_node_body t s)
unfolding decode_node_body
decode_node_body-shorter t s = Yields-bind (read_uint 1 s) λ (sub_type, s2) e1.
    Yields-bind (read_uint 2 s2) λ (len, s3) e2.
      Yields-bind (if ltb len 4 then err (device_path_node_length len) else ok (tt {0})) λ _ _.
        Yields-bind (read_full (len - 4) s3) λ (d, s4) e3.
          Yields-bind (node_to_string t sub_type d) λ text _. Yields-ok (
            omega
              (arith, read_uint-ok 1 s e1, read_uint-ok 2 s2 e2, (read_full-ok (len - 4) s3 e3).2))

decode_device_path_node-shorter :
    (s : Bytes) → Yields (λ p. length p.1 < length s) (decode_device_path_node s)
unfolding decode_device_path_node
decode_device_path_node-shorter s = Yields-bind (read_uint 1 s) λ (t, s1) e1.
    Yields-if (t == 0x7f) (Yields-ok (omega (arith, read_uint-ok 1 s e1))) (record {
      holds = λ p h. omega (arith, read_uint-ok 1 s e1, (decode_node_body-shorter t s1).holds p h);
    })

-- One round: its node is short enough for the rounds that follow it.
path_round-ne-none :
    (fuel : ℕ) (s out : Bytes) (r : Result (Bytes × Bytes))
    → Yields (λ p. length p.1 < length s) r
    → ((s' out' : Bytes) → length s' < length s → device_path_loop fuel s' out' ≢ none)
    → elim r [
      | ok (node, s') ↦
          let rest = device_path_loop fuel s' (out ++ node) in
          if length node == 0 then some (ok out) else rest
      | err e ↦ some (err e)
      | panic ↦ some panic
    ]
      ≢ none
path_round-ne-none fuel s out (ok (node, s')) y more = λ e. elim (Bool-cases (length node == 0)) [
  | inl end ↦ cc
  | inr goes_on ↦ more s' (out ++ node) (y.holds _ refl) (
      ap (λ b. if b then some (ok out) else device_path_loop fuel s' (out ++ node)) (sym goes_on)
      ∙ e)
]
path_round-ne-none fuel s out (err x) y more = λ e. cc
path_round-ne-none fuel s out panic y more = λ e. cc

device_path_loop-ne-none :
    (fuel : ℕ) (s out : Bytes) → length s < fuel → device_path_loop fuel s out ≢ none
unfolding device_path_loop
device_path_loop-ne-none zero s out h = absurd (omega arith)
device_path_loop-ne-none (suc fuel) s out h =
    path_round-ne-none fuel s out (decode_device_path_node s) (decode_device_path_node-shorter s)
      λ s' out' h'. device_path_loop-ne-none fuel s' out' (omega arith)

-- Decoding a device path ends on any bytes: the loop over the nodes never runs out of the rounds that
-- it is given, which are one more than the path has bytes.
pub decode_device_path-ne-none : (d : Bytes) → decode_device_path d ≢ none
unfolding decode_device_path
decode_device_path-ne-none d = device_path_loop-ne-none (suc (length d)) d [] (omega arith)
