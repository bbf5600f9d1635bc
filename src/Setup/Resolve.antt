-- ===== src/Setup/Resolve.antt =====
-- References of the resolver in memory, as `resolve_opaque_ref` of app/collection/secrets.py
-- strips them.
use Prim.Native.Char.{Char, code}
use threatforge.Common.{
  ℕ, ◌≤◌, String, ◌≡◌, refl, Bool, false, List, [], ◌∷◌, ◌++◌, arith, concat, text_append, decimal,
  IsDigits, decimal-IsDigits,
}
use threatforge.Secrets.Memory.{append_nil}
use threatforge.Secrets.{strip, strip_end, cons_unless_blank, drop_while, memory_ref}

-- No printable character of ASCII is white space.
abbrev pub IsAsciiFree : (ℕ → Bool) → Type 0
IsAsciiFree space = (c : ℕ) → 33 ≤ c → c ≤ 126 → space c ≡ false

module _ (space : ℕ → Bool) (free : IsAsciiFree space) where
  visible :
      (c : Char) (s : String)
      → space (code c) ≡ false
      → cons_unless_blank space c s ≡ String.◌∷◌ c s
  visible c String.[] h = rw (h) refl
  visible c (String.◌∷◌ d s) h = refl

  strip_end-digits : (s : String) → IsDigits s → strip_end space s ≡ s
  unfolding strip_end
  strip_end-digits String.[] h = refl
  strip_end-digits (String.◌∷◌ c s) h =
      rw (strip_end-digits s h.2)
        (visible c s (free (code c) (omega (arith, h.0)) (omega (arith, h.1))))

  -- The text ends in a character that is not stripped.
  abbrev EndsVisibly : String → Type 0
  EndsVisibly String.[] = ⊥
  EndsVisibly (String.◌∷◌ c s) = strip_end space (String.◌∷◌ c s) ≡ String.◌∷◌ c s

  cons-EndsVisibly : (c : Char) (t : String) → EndsVisibly t → EndsVisibly (String.◌∷◌ c t)
  unfolding strip_end
  cons-EndsVisibly c String.[] h = absurd h
  cons-EndsVisibly c (String.◌∷◌ d t) h = rw (h) refl

  append-EndsVisibly : (s t : String) → EndsVisibly t → EndsVisibly (text_append s t)
  append-EndsVisibly String.[] t h = h
  append-EndsVisibly (String.◌∷◌ c s) t h =
      cons-EndsVisibly c (text_append s t) (append-EndsVisibly s t h)

  concat-EndsVisibly :
      (parts last : List String) → EndsVisibly (concat last) → EndsVisibly (concat (parts ++ last))
  concat-EndsVisibly [] last h = h
  concat-EndsVisibly (s ∷ parts) last h =
      append-EndsVisibly s (concat (parts ++ last)) (concat-EndsVisibly parts last h)

  last-EndsVisibly : (n : ℕ) → EndsVisibly (concat ("/" ∷ decimal n ∷ []))
  unfolding strip_end
  last-EndsVisibly n = rw (append_nil (decimal n)) (
      rw (strip_end-digits (decimal n) (decimal-IsDigits n))
        (visible "/" (decimal n) (free 47 (omega arith) (omega arith))))

  pub strip-memory_ref :
      (tenant : ℕ) (scope name : String) (n : ℕ)
      → strip space (memory_ref tenant scope name n) ≡ memory_ref tenant scope name n
  unfolding strip drop_while
  strip-memory_ref tenant scope name n = rw (free 115 (omega arith) (omega arith)) (
      concat-EndsVisibly ("secretref://mem/" ∷ decimal tenant ∷ "/" ∷ scope ∷ "/" ∷ name ∷ [])
        ("/" ∷ decimal n ∷ []) (last-EndsVisibly n))
