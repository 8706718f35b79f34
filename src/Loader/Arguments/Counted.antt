-- ===== src/Loader/Arguments/Counted.antt =====
-- As many words are written as `shift` counts, and at most ten.
use iamroot.Base.{
  ◌+◌, ◌≤◌, ◌≡◌, ◌∙◌, ap, refl, Bool, true, false, ◌&&◌, ◌++◌, Option, none, some, if◌then◌else◌,
  length, length-append, inl, inr, arith,
}
use iamroot.Base.Bytes.{Bytes, codes}
use iamroot.Loader.Arguments.{Options, is_set, total_shift, shifted}
use iamroot.Loader.Arguments.Expected.{option_words, word_if, options_when, options_of, IsCoherent}

length-option_words :
    (has : Bool) (name : Bytes) (v : Option Bytes)
    → length (option_words has name v) ≡ (if has && is_set v then 2 else 0)
length-option_words true name none = refl
length-option_words true name (some v) = refl
length-option_words false name none = refl
length-option_words false name (some v) = refl

length-word_if : (has : Bool) (w : Bytes) → length (word_if has w) ≡ (if has then 1 else 0)
length-word_if true w = refl
length-word_if false w = refl

length-option_words-some :
    (has : Bool) (name v : Bytes) → length (option_words has name (some v)) ≡ (if has then 2 else 0)
length-option_words-some true name v = refl
length-option_words-some false name v = refl

length-options_when :
    (sh : Bool) (o : Options) (argv0 : Bytes)
    → length (options_when sh o argv0) + o.shift ≡ (if sh then 1 + total_shift o else o.shift)
unfolding total_shift
length-options_when sh o argv0 =
    let w0 = word_if sh o.interp in
    let w1 = option_words (sh && o.has_preload) (codes "--preload") o.ld_preload in
    let w2 = option_words (sh && o.has_library_path) (codes "--library-path") o.ld_library_path in
    let w3 = option_words (sh && o.has_inhibit_rpath) (codes "--inhibit-rpath") o.inhibit_rpath in
    let w4 = word_if (sh && o.has_inhibit_cache) (codes "--inhibit-cache") in
    let w5 = option_words (sh && o.has_argv0) (codes "--argv0") (some argv0) in
    let h4 = length-append (w0 ++ w1 ++ w2 ++ w3 ++ w4) w5 in
    let h3 = length-append (w0 ++ w1 ++ w2 ++ w3) w4 in
    let h2 = length-append (w0 ++ w1 ++ w2) w3 in
    let h1 = length-append (w0 ++ w1) w2 in
    let h0 = length-append w0 w1 in
    let l0 = length-word_if sh o.interp in
    let l1 = length-option_words (sh && o.has_preload) (codes "--preload") o.ld_preload in
    let l2 =
      length-option_words (sh && o.has_library_path) (codes "--library-path") o.ld_library_path in
    let l3 =
      length-option_words (sh && o.has_inhibit_rpath) (codes "--inhibit-rpath") o.inhibit_rpath in
    let l4 = length-word_if (sh && o.has_inhibit_cache) (codes "--inhibit-cache") in
    let l5 = length-option_words-some (sh && o.has_argv0) (codes "--argv0") argv0 in
    counted sh o (omega arith)
  where
    counted :
        (sh : Bool) (o : Options)
        → length (options_when sh o argv0)
          ≡ (if sh then 1 else 0)
            + (if sh && o.has_preload && is_set o.ld_preload then 2 else 0)
            + (if sh && o.has_library_path && is_set o.ld_library_path then 2 else 0)
            + (if sh && o.has_inhibit_rpath && is_set o.inhibit_rpath then 2 else 0)
            + (if sh && o.has_inhibit_cache then 1 else 0)
            + (if sh && o.has_argv0 then 2 else 0)
        → length (options_when sh o argv0) + o.shift ≡ (if sh then 1 + total_shift o else o.shift)
    counted true o e = omega arith
    counted false o e = omega arith

shift-le : (o : Options) → o.shift ≤ total_shift o
unfolding total_shift
shift-le o = omega arith

pub length-options_of :
    (o : Options) (argv0 : Bytes) → IsCoherent o → length (options_of o argv0) ≡ total_shift o
unfolding shifted
length-options_of o argv0 (inl one) =
    let run : shifted o ≡ true = ground (arith, shift-le o) in
    let h = length-options_when true o argv0 in
    ap (λ sh. length (options_when sh o argv0)) run ∙ omega arith
length-options_of o argv0 (inr zero_shift) =
    let bare : shifted o ≡ false = ground arith in
    let h = length-options_when false o argv0 in
    ap (λ sh. length (options_when sh o argv0)) bare ∙ omega arith

pub total_shift-le : (o : Options) → IsCoherent o → total_shift o ≤ 10
unfolding total_shift
total_shift-le o (inl one) = ground arith
total_shift-le o (inr zero_shift) = omega arith
