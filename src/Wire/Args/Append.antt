-- ===== src/Wire/Args/Append.antt =====
-- What the methods of MessageBuilder append, for arguments that the wire format holds.
use zwwm.Common.{
  ℕ, ◌+◌, ◌%◌, ◌<◌, ◌≡◌, ◌≢◌, refl, sym, ap, ◌∙◌, arith, false, List, [], ◌∷◌, ◌++◌, Option, none,
  length, map, ok, length-append, append_assoc, append-nil, inl, inr, Option-cases,
}
use zwwm.Common.Int.{ℤ}
use zwwm.Wire.Bytes.{le32, word_limit}
use zwwm.Wire.Builder.{
  MessageBuilder, append_int, append_uint, append_string, append_null_string, append_object,
  append_new_id, append_array, add_fd, to_uint32, contains_nul, pad_to_alignment, append_bytes,
}
use zwwm.Wire.Builder.Padding.{zeros, pad_aligned, pad_to_alignment_lem, zeros_shift, zeros-aligns}
use zwwm.Wire.Args.{
  Arg, Fits, AllFit, Duplicates, AllDuplicate, append_arg, append_args, encode, encode_field,
  encode_all, fds_of, fds_in, sent,
}

abbrev IsAligned : MessageBuilder → Type 0
IsAligned b = length b.buffer % 4 ≡ 0

-- The builder after more bytes and descriptors.
abbrev pub grown : List ℕ → List ℕ → MessageBuilder → MessageBuilder
grown bytes fds b = record b { buffer = b.buffer ++ bytes; fds = b.fds ++ fds }

append_uint_aligned :
    (n : ℕ) (b : MessageBuilder) → IsAligned b → append_uint n b ≡ append_bytes (le32 n) b
unfolding append_uint
append_uint_aligned n b h = ap (append_bytes (le32 n)) (pad_aligned b h)

append_int_aligned :
    (z : ℤ) (b : MessageBuilder)
    → IsAligned b
    → append_int z b ≡ append_bytes (le32 (to_uint32 z)) b
unfolding append_int
append_int_aligned z b h = ap (append_bytes (le32 (to_uint32 z))) (pad_aligned b h)

-- A field that is padded to its end: `n` bytes from an aligned place, and zeros.
pad_field :
    (field : List ℕ) (n : ℕ) (b : MessageBuilder)
    → IsAligned b
    → length field ≡ 4 + n
    → pad_to_alignment (append_bytes field b) ≡ append_bytes (field ++ zeros n) b
pad_field field n b h e =
    pad_to_alignment_lem (append_bytes field b)
    ∙ ap (λ bytes. record b { buffer = bytes })
        (append_assoc b.buffer field (zeros (length (b.buffer ++ field)))
          ∙ ap (λ more. b.buffer ++ (field ++ more)) same)
  where
    total : length (b.buffer ++ field) ≡ (length b.buffer + 4) + n
    total = omega (arith, length-append b.buffer field)

    same : zeros (length (b.buffer ++ field)) ≡ zeros n
    same = ap zeros total ∙ zeros_shift (length b.buffer + 4) n (omega arith)

-- The tests that `append_string` and `append_array` make first.
accepted :
    (s : List ℕ) (b : MessageBuilder)
    → contains_nul s ≡ false
    → length s + 1 < word_limit
    → append_string s b
      ≡ ok (
          pad_to_alignment (
            append_bytes
              (0 ∷ [])
              (append_bytes s (append_uint (length s + 1) (pad_to_alignment b)))))
unfolding append_string
accepted s b clean short = ground arith

array_accepted :
    (a : List ℕ) (b : MessageBuilder)
    → length a < word_limit
    → append_array a b
      ≡ ok (pad_to_alignment (append_bytes a (append_uint (length a) (pad_to_alignment b))))
unfolding append_array
array_accepted a b short = ground arith

append_string_aligned :
    (s : List ℕ) (b : MessageBuilder)
    → IsAligned b
    → contains_nul s ≡ false
    → length s + 1 < word_limit
    → append_string s b ≡ ok (append_bytes (encode (Arg.string s)) b)
append_string_aligned s b h clean short =
    accepted s b clean short
    ∙ rw (pad_aligned b h, append_uint_aligned (length s + 1) b h, append_assoc, append_assoc)
        (rw (← length-append s (0 ∷ []))
          (ap ok (pad_field (le32 (length text) ++ text) (length text) b h (omega arith))))
  where
    text : List ℕ
    text = s ++ (0 ∷ [])

append_array_aligned :
    (a : List ℕ) (b : MessageBuilder)
    → IsAligned b
    → length a < word_limit
    → append_array a b ≡ ok (append_bytes (encode (Arg.array a)) b)
append_array_aligned a b h short =
    array_accepted a b short
    ∙ rw (pad_aligned b h, append_uint_aligned (length a) b h, append_assoc)
        (ap ok (pad_field (le32 (length a) ++ a) (length a) b h (omega arith)))

no_fds : (bytes : List ℕ) (b : MessageBuilder) → append_bytes bytes b ≡ grown bytes [] b
no_fds bytes b =
    ap (λ fds. record b { buffer = b.buffer ++ bytes; fds = fds }) (sym (append-nil b.fds))

add_fd-sent :
    (dup : ℕ → Option ℕ) (n : ℕ) (b : MessageBuilder)
    → dup n ≢ none
    → add_fd dup n b ≡ ok (grown [] (fds_in (sent dup (Arg.fd n))) b)
unfolding add_fd
add_fd-sent dup n b h = elim (Option-cases (dup n)) [
  | inl e ↦ absurd (h e)
  | inr (m, e) ↦ ground (arith, e, append-nil b.buffer)
]

-- Each method appends the encoding of its argument to an aligned buffer, and its descriptor.
append_arg_lem :
    (dup : ℕ → Option ℕ) (a : Arg) (b : MessageBuilder)
    → IsAligned b
    → Fits a
    → Duplicates dup a
    → append_arg dup a b ≡ ok (grown (encode a) (fds_in (sent dup a)) b)
unfolding append_arg
append_arg_lem dup (Arg.int z) b h f d = ap ok (append_int_aligned z b h ∙ no_fds _ b)
append_arg_lem dup (Arg.fixed z) b h f d = ap ok (append_int_aligned z b h ∙ no_fds _ b)
append_arg_lem dup (Arg.uint n) b h f d = ap ok (append_uint_aligned n b h ∙ no_fds _ b)
append_arg_lem dup (Arg.object n) b h f d =
    unfold append_object in ap ok (append_uint_aligned n b h ∙ no_fds _ b)
append_arg_lem dup (Arg.new_id n) b h f d =
    unfold append_new_id in ap ok (append_uint_aligned n b h ∙ no_fds _ b)
append_arg_lem dup (Arg.string s) b h f d = append_string_aligned s b h f.0 f.1 ∙ ap ok (no_fds _ b)
append_arg_lem dup Arg.null_string b h f d =
    unfold append_null_string in ap ok (append_uint_aligned 0 b h ∙ no_fds _ b)
append_arg_lem dup (Arg.array a) b h f d = append_array_aligned a b h f ∙ ap ok (no_fds _ b)
append_arg_lem dup (Arg.fd n) b h f d = add_fd-sent dup n b d

encode_field-aligns : (bytes : List ℕ) → length (encode_field bytes) % 4 ≡ 0
encode_field-aligns bytes =
    omega (arith, length-append bytes (zeros (length bytes)), zeros-aligns (length bytes))

pub encode-aligns : (a : Arg) → length (encode a) % 4 ≡ 0
encode-aligns (Arg.string s) = encode_field-aligns (s ++ (0 ∷ []))
encode-aligns (Arg.array a) = encode_field-aligns a
encode-aligns _ = refl

pub encode_all-aligns : (args : List Arg) → length (encode_all args) % 4 ≡ 0
encode_all-aligns [] = refl
encode_all-aligns (a ∷ rest) =
    omega
      (arith, length-append (encode a) (encode_all rest), encode-aligns a, encode_all-aligns rest)

grown-grown :
    (x y : List ℕ) (u v : List ℕ) (b : MessageBuilder)
    → grown y v (grown x u b) ≡ grown (x ++ y) (u ++ v) b
grown-grown x y u v b = cc (append_assoc b.buffer x y, append_assoc b.fds u v)

pub append_args_lem :
    (dup : ℕ → Option ℕ) (args : List Arg) (b : MessageBuilder)
    → length b.buffer % 4 ≡ 0
    → AllFit args
    → AllDuplicate dup args
    → append_args dup args b ≡ ok (grown (encode_all args) (fds_of (map (sent dup) args)) b)
unfolding append_args
append_args_lem dup [] b h f d = cc (append-nil b.buffer, append-nil b.fds)
append_args_lem dup (a ∷ rest) b h f d = rw (append_arg_lem dup a b h f.0 d.0) (
    append_args_lem dup rest _ (omega (arith, length-append b.buffer (encode a), encode-aligns a))
      f.1 d.1
    ∙ ap ok (grown-grown (encode a) (encode_all rest) _ _ b))
