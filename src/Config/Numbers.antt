-- ===== src/Config/Numbers.antt =====
-- `atoi` reads back what `%d` prints, and which items a saved file can hold.
use net_serve.Prelude.{
  ℕ, zero, suc, ◌≡◌, ◌≢◌, ◌≤◌, ◌<◌, ◌+◌, ◌/◌, ◌%◌, refl, sym, ap, ◌∙◌, Bool, true, false, [], ◌∷◌,
  arith, Bytes, str_eq, str_eq_iff, length, All, some, ◌⊎◌, inr,
}
use net_serve.Config.Store.{ℤ, pos, negsuc, string, int, bool, is_nonzero}
use net_serve.Config.Text.{
  parse_value, text_true, text_false, text_one, text_zero, has_char, atoi, digits_value, negate,
  strip_end,
}
use net_serve.Config.File.{FloatLib, print_digits, print_int, print_item}
use net_serve.Config.Lines.{IsWord, IsPlain}
use net_serve.Config.RoundTrip.{IsPrintable}

abbrev IsDigit : ℕ → Type 0
IsDigit c = (b'0' ≤ c) × (c ≤ b'9')

digits_value-print_digits :
    (fuel n : ℕ) (rest : Bytes)
    → n < fuel
    → digits_value 0 (print_digits fuel n rest) ≡ digits_value n rest
unfolding print_digits digits_value
digits_value-print_digits zero n rest lt = absurd (omega arith)
digits_value-print_digits (suc fuel) n rest lt =
    ground (arith, digits_value-print_digits fuel (n / 10) ((b'0' + n % 10) ∷ rest))

print_digits-IsDigit :
    (fuel n : ℕ) (rest : Bytes) → All IsDigit rest → All IsDigit (print_digits fuel n rest)
unfolding print_digits
print_digits-IsDigit zero n rest h = h
print_digits-IsDigit (suc fuel) n rest h =
    ground (arith, print_digits-IsDigit fuel (n / 10) ((b'0' + n % 10) ∷ rest))

print_digits-ne-nil :
    (fuel n : ℕ) (rest : Bytes) → (rest ≢ []) ⊎ (fuel ≢ 0) → print_digits fuel n rest ≢ []
unfolding print_digits
print_digits-ne-nil zero n rest h = ground arith
print_digits-ne-nil (suc fuel) n rest h =
    ground (arith, print_digits-ne-nil fuel (n / 10) ((b'0' + n % 10) ∷ rest))

strip_end-digits : (s : Bytes) → All IsDigit s → strip_end s ≡ s
unfolding strip_end
strip_end-digits [] h = refl
strip_end-digits (c ∷ []) h = ground arith
strip_end-digits (c ∷ x ∷ s) h = rw (strip_end-digits (x ∷ s) h.1) refl

digits-IsPlain : (s : Bytes) → All IsDigit s → All IsPlain s
digits-IsPlain [] h = tt
digits-IsPlain (c ∷ cs) h = (omega arith, digits-IsPlain cs h.1)

digits_no_dot : (s : Bytes) → All IsDigit s → has_char b'.' s ≡ false
unfolding has_char
digits_no_dot [] h = refl
digits_no_dot (c ∷ cs) h = ground (arith, digits_no_dot cs h.1)

-- A text of digits, with a sign in front or not.
digits-IsWord : (s : Bytes) → s ≢ [] → All IsDigit s → IsWord s
digits-IsWord [] ne h = absurd (ne refl)
digits-IsWord (c ∷ cs) ne h = record {
  plain = digits-IsPlain (c ∷ cs) h;
  starts = ground arith;
  ends = strip_end-digits (c ∷ cs) h;
}

negative-IsWord : (s : Bytes) → s ≢ [] → All IsDigit s → IsWord (b'-' ∷ s)
negative-IsWord [] ne h = absurd (ne refl)
negative-IsWord (c ∷ cs) ne h = record {
  plain = (omega arith, digits-IsPlain (c ∷ cs) h);
  starts = refl;
  ends = unfold strip_end in rw (strip_end-digits (c ∷ cs) h) refl;
}

signed-digits : (s : Bytes) → All IsDigit s → atoi s ≡ pos (digits_value 0 s)
unfolding atoi
signed-digits [] h = refl
signed-digits (c ∷ cs) h = ground arith

atoi_minus : (s : Bytes) → atoi (b'-' ∷ s) ≡ negate (digits_value 0 s)
unfolding atoi
atoi_minus s = refl

read_back : (fuel n : ℕ) → n < fuel → digits_value 0 (print_digits fuel n []) ≡ n
unfolding digits_value
read_back fuel n lt = digits_value-print_digits fuel n [] lt

-- `atoi` reads back each number that `%d` prints.
pub atoi-print_int : (n : ℤ) → atoi (print_int n) ≡ n
unfolding print_int
atoi-print_int (pos n) =
    signed-digits (print_digits (n + 1) n []) (print_digits-IsDigit (n + 1) n [] tt)
    ∙ ap pos (read_back (n + 1) n (omega arith))
atoi-print_int (negsuc n) =
    atoi_minus (print_digits (n + 2) (n + 1) [])
    ∙ ap negate {y = suc n} (read_back (n + 2) (n + 1) (omega arith) ∙ omega arith)

print_int-IsWord : (n : ℤ) → IsWord (print_int n)
unfolding print_int
print_int-IsWord (pos n) =
    digits-IsWord (print_digits (n + 1) n []) (print_digits-ne-nil (n + 1) n [] (inr (omega arith)))
      (print_digits-IsDigit (n + 1) n [] tt)
print_int-IsWord (negsuc n) =
    negative-IsWord (print_digits (n + 2) (n + 1) [])
      (print_digits-ne-nil (n + 2) (n + 1) [] (inr (omega arith)))
      (print_digits-IsDigit (n + 2) (n + 1) [] tt)

print_int_no_dot : (n : ℤ) → has_char b'.' (print_int n) ≡ false
unfolding print_int has_char
print_int_no_dot (pos n) =
    digits_no_dot (print_digits (n + 1) n []) (print_digits-IsDigit (n + 1) n [] tt)
print_int_no_dot (negsuc n) =
    digits_no_dot (print_digits (n + 2) (n + 1) []) (print_digits-IsDigit (n + 2) (n + 1) [] tt)

is_nonzero-ne : (n : ℤ) → n ≢ pos 0 → is_nonzero n ≡ true
unfolding is_nonzero
is_nonzero-ne (pos zero) h = absurd (h refl)
is_nonzero-ne _ h = refl

parse_value-int :
    {F : Type 0} (atof : Bytes → F) (s : Bytes)
    → s ≢ text_true
    → s ≢ text_one
    → s ≢ text_false
    → s ≢ text_zero
    → has_char b'.' s ≡ false
    → is_nonzero (atoi s) ≡ true
    → parse_value atof s ≡ int (atoi s)
unfolding parse_value
parse_value-int atof s a b c d e f = ground (
  arith,
  str_eq_iff s text_true,
  str_eq_iff s text_one,
  str_eq_iff s text_false,
  str_eq_iff s text_zero,
)

-- A number that is printed and read again is the same number, unless it is 0 or 1.
pub parse_value-print_int :
    {F : Type 0} (atof : Bytes → F) (n : ℤ)
    → n ≢ pos 0
    → n ≢ pos 1
    → parse_value atof (print_int n) ≡ int n
unfolding atoi
parse_value-print_int atof n h k =
    let back = atoi-print_int n in
    parse_value-int atof (print_int n) (λ e. h (sym back ∙ ap atoi e))
      (λ e. k (sym back ∙ ap atoi e)) (λ e. h (sym back ∙ ap atoi e))
      (λ e. h (sym back ∙ ap atoi e)) (print_int_no_dot n) (ap is_nonzero back ∙ is_nonzero-ne n h)
    ∙ ap int back

module _ (lib : FloatLib) where
  open lib use {F, atof}

  -- An item that holds a number other than 0 and 1 is printable, if its key is a word and the line is
  -- short enough.
  pub int-IsPrintable :
      (k : Bytes) (n : ℤ)
      → IsWord k
      → n ≢ pos 0
      → n ≢ pos 1
      → length k + length (print_int n) < 254
      → IsPrintable lib (record { key = k; value = int n })
  unfolding print_item
  int-IsPrintable k n w h h' short = record {
    text = print_int n;
    line = refl;
    key_word = w;
    text_word = print_int-IsWord n;
    short = short;
    means = parse_value-print_int atof n h h';
  }

  -- One that holds a bool is, and one that holds a text which is a word and not read as another type.
  pub bool-IsPrintable :
      (k : Bytes) (b : Bool)
      → IsWord k
      → length k < 240
      → IsPrintable lib (record { key = k; value = bool b })
  unfolding print_item parse_value strip_end str_eq
  bool-IsPrintable k true w short = record {
    text = text_true;
    line = refl;
    key_word = w;
    text_word = record { plain = omega arith; starts = refl; ends = refl };
    short = omega arith;
    means = refl;
  }
  bool-IsPrintable k false w short = record {
    text = text_false;
    line = refl;
    key_word = w;
    text_word = record { plain = omega arith; starts = refl; ends = refl };
    short = omega arith;
    means = refl;
  }

  pub string-IsPrintable :
      (k s : Bytes)
      → IsWord k
      → IsWord s
      → length k + length s < 254
      → parse_value atof s ≡ string (some s)
      → IsPrintable lib (record { key = k; value = string (some s) })
  unfolding print_item
  string-IsPrintable k s w t short means = record {
    text = s;
    line = refl;
    key_word = w;
    text_word = t;
    short = short;
    means = means;
  }
