-- ===== src/Config/Laws.antt =====
-- src/config.rs: what a keys file that loads is known to hold.
use ollamux.Base.{
  is_empty, ℕ, ◌^◌, ◌≤◌, ◌<◌, ◌≡◌, refl, sym, ap, subst, inl, inr, Bool, true, false, ◌||◌, Option,
  none, some, List, [], ◌∷◌, ◌++◌, All, if◌then◌else◌, Bool-cases, Option-cases, Text, text_eq,
  text_eq_sound, text_eq_refl, rsplit_once, is_whitespace, trim, trim_start, trim_end, codes, arith,
}
use ollamux.Config.{
  Entry, Parsed, ok, err, ◌>>=◌, parse_u32, parse_tail, parse_line, is_skipped, has_key, add_entry,
  parse_step, parse_lines, parse, require_nonempty, Environment, from_default, load, text_of,
  missing, unreadable, config_path, lines, FileRead, no_keys_in,
}

abbrev pub IsEntry : Entry → Type 0
IsEntry e = (is_empty e.0 ≡ false) × (1 ≤ e.1) × (e.1 < 2 ^ 32)

-- No key stands twice.
abbrev pub Distinct : List Entry → Type 0
Distinct [] = Unit {0}
Distinct (e ∷ es) = (has_key e.0 es ≡ false) × Distinct es

abbrev pub IsValid : List Entry → Type 0
IsValid es = All IsEntry es × Distinct es

abbrev Clean : Text → Type 0
Clean [] = Unit {0}
Clean (c ∷ cs) = is_whitespace c ≡ false

trim_start-Clean : (t : Text) → Clean (trim_start t)
unfolding trim_start
trim_start-Clean [] = tt
trim_start-Clean (c ∷ cs) = elim (Bool-cases (is_whitespace c)) [
  | inl e ↦ rw e (trim_start-Clean cs)
  | inr e ↦ rw e e
]

trim_end-Clean : (t : Text) → Clean t → Clean (trim_end t)
unfolding trim_end
trim_end-Clean [] h = tt
trim_end-Clean (c ∷ cs) h = go (trim_end cs)
  where
    go :
        (r : Text)
        → Clean (elim r [ d ∷ ds ↦ c ∷ d ∷ ds | [] ↦ if is_whitespace c then [] else c ∷ [] ])
    go [] = rw h h
    go (d ∷ ds) = h

trim-Clean : (t : Text) → Clean (trim t)
unfolding trim
trim-Clean t = trim_end-Clean (trim_start t) (trim_start-Clean t)

-- A text that begins with no whitespace is not trimmed away.
trim-nonempty : (t : Text) → Clean t → is_empty t ≡ false → is_empty (trim t) ≡ false
unfolding trim trim_start trim_end
trim-nonempty [] h e = cc
trim-nonempty (c ∷ cs) h e = rw h (go (trim_end cs))
  where
    go :
        (r : Text)
        → is_empty (elim r [ d ∷ ds ↦ c ∷ d ∷ ds | [] ↦ if is_whitespace c then [] else c ∷ [] ])
          ≡ false
    go [] = rw h
    go (d ∷ ds) = refl

rsplit_once-Clean : (sep : ℕ) (t k n : Text) → Clean t → rsplit_once sep t ≡ some (k, n) → Clean k
unfolding rsplit_once
rsplit_once-Clean sep [] k n h e = cc
rsplit_once-Clean sep (c ∷ cs) k n h e = elim (Option-cases (rsplit_once sep cs)) [
  | inr (lr, later) ↦ subst Clean {x = c ∷ lr.0} {y = k} (ground arith) h
  | inl last ↦ subst Clean {x = []} {y = k} (ground arith) tt
]

parse_tail-IsEntry :
    (line k n : Text) (e : Entry)
    → Clean k
    → is_empty line ≡ false
    → parse_tail line k n ≡ ok e
    → IsEntry e
unfolding parse_tail parse_u32
parse_tail-IsEntry line k n e c l h = ground (arith, trim-nonempty k c)

snoc-has_key :
    (x : Text) (es : List Entry) (e : Entry)
    → has_key x (es ++ e ∷ []) ≡ (has_key x es || text_eq e.0 x)
unfolding has_key
snoc-has_key x [] e = ground arith
snoc-has_key x (f ∷ es) e = ground (arith, snoc-has_key x es e)

text_eq_comm : (s t : Text) → text_eq s t ≡ false → text_eq t s ≡ false
text_eq_comm s t h = elim (Bool-cases (text_eq t s)) [
  | inr e ↦ e
  | inl e ↦ ground (arith, text_eq_refl s, ap (text_eq s) (text_eq_sound t s e))
]

snoc-Distinct :
    (es : List Entry) (e : Entry) → Distinct es → has_key e.0 es ≡ false → Distinct (es ++ e ∷ [])
unfolding has_key
snoc-Distinct [] e d h = (refl, tt)
snoc-Distinct (f ∷ es) e d h = (
  ground (arith, snoc-has_key f.0 es e, text_eq_comm f.0 e.0),
  snoc-Distinct es e d.1 (ground arith),
)

snoc-All : (es : List Entry) (e : Entry) → All IsEntry es → IsEntry e → All IsEntry (es ++ e ∷ [])
snoc-All [] e h k = (k, tt)
snoc-All (f ∷ es) e h k = (h.0, snoc-All es e h.1 k)

parse_line-IsEntry :
    (line : Text) (e : Entry)
    → Clean line
    → is_empty line ≡ false
    → parse_line line ≡ ok e
    → IsEntry e
unfolding parse_line
parse_line-IsEntry line e c l h = elim (Option-cases (rsplit_once b':' line)) [
  | inl whole ↦ ground arith
  | inr (kn, found) ↦
      parse_tail-IsEntry line kn.0 kn.1 e (rsplit_once-Clean b':' line kn.0 kn.1 c found) l
        (ground arith)
]

add_entry-IsValid :
    (es : List Entry) (e : Entry) (fs : List Entry)
    → IsValid es
    → IsEntry e
    → add_entry es e ≡ ok fs
    → IsValid fs
unfolding add_entry
add_entry-IsValid es e fs v k h = elim (Bool-cases (has_key e.0 es)) [
  | inl twice ↦ absurd (ground arith)
  | inr new ↦
      subst IsValid {x = es ++ e ∷ []} {y = fs} (ground arith)
        (snoc-All es e v.0 k, snoc-Distinct es e v.1 new)
]

data LineResult (line : Text) (es fs : List Entry) : Type 0 where
  skips : fs ≡ es → LineResult line es fs
  adds :
      (e : Entry)
      → is_empty (trim line) ≡ false
      → parse_line (trim line) ≡ ok e
      → add_entry es e ≡ ok fs
      → LineResult line es fs

parse_step-LineResult :
    (line : Text) (es fs : List Entry) → parse_step line es ≡ ok fs → LineResult line es fs
unfolding parse_step
parse_step-LineResult line es fs h = go (is_skipped (trim line)) (parse_line (trim line)) refl refl
  where
    go :
        (b : Bool) (r : Parsed Entry)
        → is_skipped (trim line) ≡ b
        → parse_line (trim line) ≡ r
        → LineResult line es fs
    go true r s p = skips (ground arith)
    go false (ok e) s p = adds e (ground arith) p (ground arith)
    go false (err x) s p = absurd (ground arith)

parse_step-IsValid :
    (line : Text) (es fs : List Entry) → IsValid es → parse_step line es ≡ ok fs → IsValid fs
parse_step-IsValid line es fs v h = go (parse_step-LineResult line es fs h)
  where
    go : LineResult line es fs → IsValid fs
    go (skips e) = subst IsValid (sym e) v
    go (adds e l p a) =
        add_entry-IsValid es e fs v (parse_line-IsEntry (trim line) e (trim-Clean line) l p) a

parse_lines-IsValid :
    (ls : List Text) (es fs : List Entry) → IsValid es → parse_lines ls es ≡ ok fs → IsValid fs
unfolding parse_lines
parse_lines-IsValid [] es fs v h = subst IsValid {x = es} {y = fs} (ground arith) v
parse_lines-IsValid (l ∷ ls) es fs v h =
    go (parse_step l es) refl (λ gs w k. parse_lines-IsValid ls gs fs w k)
  where
    go :
        (r : Parsed (List Entry))
        → parse_step l es ≡ r
        → ((gs : List Entry) → IsValid gs → parse_lines ls gs ≡ ok fs → IsValid fs)
        → IsValid fs
    go (ok gs) e rest = rest gs (parse_step-IsValid l es gs v e) (ground arith)
    go (err x) e rest = absurd (ground arith)

-- Every entry of a text that parses has a key that is not empty and a concurrency from 1 to
-- 2^32 - 1, and no key stands twice.
pub parse-IsValid : (text : Text) (es : List Entry) → parse text ≡ ok es → IsValid es
unfolding parse
parse-IsValid text es h = parse_lines-IsValid (lines text) [] es (tt, tt) h

parse_nonempty :
    (text msg : Text) (es : List Entry)
    → (parse text >>= λ entries. require_nonempty entries msg) ≡ ok es
    → IsValid es × (is_empty es ≡ false)
unfolding require_nonempty
parse_nonempty text msg es h = go (parse text) refl
  where
    go : (r : Parsed (List Entry)) → parse text ≡ r → IsValid es × (is_empty es ≡ false)
    go (ok gs) e =
        (subst IsValid {x = gs} {y = es} (ground arith) (parse-IsValid text gs e), ground arith)
    go (err x) e = absurd (ground arith)

-- Keys that load, from whatever source, are at least one; every key is not empty and has a
-- concurrency from 1 to 2^32 - 1, and no key stands twice.
pub load-IsValid :
    (env : Environment) (path : Option Text) (es : List Entry)
    → load env path ≡ ok es
    → IsValid es × (is_empty es ≡ false)
unfolding load
load-IsValid env (some path) es h = file (env.read_to_string path) refl
  where
    file : (r : FileRead) → env.read_to_string path ≡ r → IsValid es × (is_empty es ≡ false)
    file (text_of text) e = parse_nonempty text (no_keys_in path) es (ground arith)
    file (missing m) e = absurd (ground arith)
    file (unreadable m) e = absurd (ground arith)
load-IsValid env none es h = variable env.ollamux_keys refl
  where
    file :
        (path : Text) (r : FileRead)
        → env.read_to_string path ≡ r
        → config_path env ≡ ok path
        → from_default env ≡ ok es
        → IsValid es × (is_empty es ≡ false)
    file path (text_of text) e c k = parse_nonempty text (no_keys_in path) es (ground arith)
    file path (missing m) e c k = absurd (ground arith)
    file path (unreadable m) e c k = absurd (ground arith)

    located :
        (r : Parsed Text)
        → config_path env ≡ r
        → from_default env ≡ ok es
        → IsValid es × (is_empty es ≡ false)
    located (ok path) c k = file path (env.read_to_string path) refl c k
    located (err x) c k = absurd (ground arith)

    variable : (o : Option Text) → env.ollamux_keys ≡ o → IsValid es × (is_empty es ≡ false)
    variable (some raw) e =
        parse_nonempty raw (codes "OLLAMUX_KEYS is set but empty") es (ground arith)
    variable none e = located (config_path env) refl (ground arith)
