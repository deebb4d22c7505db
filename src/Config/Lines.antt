-- ===== src/Config/Lines.antt =====
-- A line that is a key and a value is read back as the two.
use net_serve.Prelude.{
  ℕ, zero, suc, ◌≡◌, ◌≢◌, ◌<◌, refl, ◌∙◌, Bool, true, false, not, ◌||◌, some, [], ◌∷◌, ◌++◌, arith,
  Bytes, length, ◌==◌, All, All-append,
}
use net_serve.Config.Text.{
  fgets, before, after, strtok, is_blank, strip_end, cons_stripped, trim, parse_line, c_string,
  is_skipped,
}

-- Bytes that neither end a line or a string nor are marks of the format.
abbrev pub IsPlain : ℕ → Type 0
IsPlain c = (c ≢ 0) × (c ≢ b'\n') × (c ≢ b'#') × (c ≢ b'=')

abbrev pub starts_word : Bytes → Bool
starts_word [] = false
starts_word (c ∷ cs) = not (is_blank c || c == b'\r')

-- A word with no blanks round it.
pub record IsWord (s : Bytes) : Type 0 where
  pub plain : All IsPlain s
  pub starts : starts_word s ≡ true
  pub ends : strip_end s ≡ s

before_absent : (c : ℕ) (s : Bytes) → All (λ x. x ≢ c) s → before c s ≡ s
unfolding before
before_absent c [] h = refl
before_absent c (x ∷ xs) h = ground (arith, before_absent c xs h.1)

before-append : (c : ℕ) (s rest : Bytes) → All (λ x. x ≢ c) s → before c (s ++ c ∷ rest) ≡ s
unfolding before
before-append c [] rest h = ground arith
before-append c (x ∷ xs) rest h = ground (arith, before-append c xs rest h.1)

after-append : (c : ℕ) (s rest : Bytes) → All (λ x. x ≢ c) s → after c (s ++ c ∷ rest) ≡ rest
unfolding after
after-append c [] rest h = ground arith
after-append c (x ∷ xs) rest h = ground (arith, after-append c xs rest h.1)

pub fgets_line :
    (n : ℕ) (s rest : Bytes)
    → All (λ x. x ≢ b'\n') s
    → length s < n
    → fgets n (s ++ b'\n' ∷ rest) ≡ (s ++ b'\n' ∷ [], rest)
unfolding fgets
fgets_line zero s rest h lt = absurd (omega arith)
fgets_line (suc n) [] rest h lt = refl
fgets_line (suc n) (x ∷ xs) rest h lt = ground (arith, fgets_line n xs rest h.1)

pub All-map : {P Q : ℕ → Type 0} (s : Bytes) → ((c : ℕ) → P c → Q c) → All P s → All Q s
All-map [] f h = tt
All-map (c ∷ cs) f h = (f c h.0, All-map cs f h.1)

strip_end-newline : (s : Bytes) → strip_end (s ++ b'\n' ∷ []) ≡ strip_end s
unfolding strip_end
strip_end-newline [] = refl
strip_end-newline (c ∷ cs) = rw (strip_end-newline cs)

stripped_tail : (c : ℕ) (cs t : Bytes) → cons_stripped c t ≡ c ∷ cs → t ≡ cs
stripped_tail c cs [] k = ground arith
stripped_tail c cs (x ∷ xs) k = cc

strip_end-tail : (c : ℕ) (cs : Bytes) → strip_end (c ∷ cs) ≡ c ∷ cs → strip_end cs ≡ cs
unfolding strip_end
strip_end-tail c cs h = stripped_tail c cs (strip_end cs) h

trim-word : (s : Bytes) → starts_word s ≡ true → strip_end s ≡ s → trim s ≡ s
unfolding trim
trim-word [] st h = refl
trim-word (c ∷ cs) st h = ground (arith, strip_end-tail c cs h)

trim-newline : (s : Bytes) → starts_word s ≡ true → strip_end s ≡ s → trim (s ++ b'\n' ∷ []) ≡ s
unfolding trim
trim-newline [] st h = absurd (cc)
trim-newline (c ∷ cs) st h = ground (arith, strip_end-tail c cs h, strip_end-newline cs)

strtok-word :
    (c : ℕ) (cs rest : Bytes)
    → All (λ x. x ≢ b'=') (c ∷ cs)
    → strtok b'=' (c ∷ (cs ++ b'=' ∷ rest)) ≡ some (c ∷ cs, rest)
unfolding strtok
strtok-word c cs rest h =
    ground (arith, before-append b'=' cs rest h.1, after-append b'=' cs rest h.1)

strtok_last :
    (c : ℕ) (cs : Bytes)
    → All (λ x. x ≢ b'=') (c ∷ cs)
    → (rest : Bytes) × (strtok b'=' (c ∷ cs) ≡ some (c ∷ cs, rest))
unfolding strtok
strtok_last c cs h = (after b'=' (c ∷ cs), ground (arith, before_absent b'=' cs h.1))

-- The line of a pair.
abbrev pub pair_line : Bytes → Bytes → Bytes
pair_line k v = k ++ (b'=' ∷ (v ++ b'\n' ∷ []))

pair-All :
    (P : ℕ → Type 0) (k v : Bytes)
    → P b'='
    → P b'\n'
    → ((c : ℕ) → IsPlain c → P c)
    → All IsPlain k
    → All IsPlain v
    → All P (pair_line k v)
pair-All P k v e n f hk hv =
    All-append P k (b'=' ∷ (v ++ b'\n' ∷ [])) (All-map k f hk)
      (e, All-append P v (b'\n' ∷ []) (All-map v f hv) (n, tt))

parse_line_given :
    (line k v more rest : Bytes)
    → c_string line ≡ line
    → is_skipped line ≡ false
    → before b'#' line ≡ line
    → strtok b'=' line ≡ some (k, more)
    → strtok b'=' more ≡ some (v, rest)
    → parse_line line ≡ some (trim k, trim v)
unfolding parse_line
parse_line_given line k v more rest z s h e f = rw (z, s, h, e, f) refl

parse_line-words :
    (c : ℕ) (cs : Bytes) (d : ℕ) (ds : Bytes)
    → IsWord (c ∷ cs)
    → IsWord (d ∷ ds)
    → parse_line (pair_line (c ∷ cs) (d ∷ ds)) ≡ some (c ∷ cs, d ∷ ds)
parse_line-words c cs d ds hk hv =
    let line = pair_line (c ∷ cs) (d ∷ ds) in
    let value = d ∷ (ds ++ b'\n' ∷ []) in
    let (rest, last) = strtok_last d (ds ++ b'\n' ∷ []) (
      All-append (λ x. x ≢ b'=') (d ∷ ds) (b'\n' ∷ []) (All-map (d ∷ ds) (λ x p. p.3) hv.plain)
        (omega arith, tt)) in
    parse_line_given line (c ∷ cs) value value rest
      (before_absent 0 line (
        pair-All (λ x. x ≢ 0) (c ∷ cs) (d ∷ ds) (omega arith) (omega arith) (λ x p. p.0) hk.plain
          hv.plain))
      (ground (arith, hk.starts, hk.plain.0))
      (before_absent b'#' line (
        pair-All (λ x. x ≢ b'#') (c ∷ cs) (d ∷ ds) (omega arith) (omega arith) (λ x p. p.2) hk.plain
          hv.plain))
      (strtok-word c cs value (All-map (c ∷ cs) (λ x p. p.3) hk.plain)) last
    ∙ rw (trim-word (c ∷ cs) hk.starts hk.ends, trim-newline (d ∷ ds) hv.starts hv.ends) refl

-- The line of a key and a value that are words is read back as the two.
pub parse_line-pair_line :
    (k v : Bytes) → IsWord k → IsWord v → parse_line (pair_line k v) ≡ some (k, v)
parse_line-pair_line [] v hk hv = absurd (cc hk.starts)
parse_line-pair_line (c ∷ cs) [] hk hv = absurd (cc hv.starts)
parse_line-pair_line (c ∷ cs) (d ∷ ds) hk hv = parse_line-words c cs d ds hk hv
