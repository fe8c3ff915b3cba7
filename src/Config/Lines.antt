-- ===== src/Config/Lines.antt =====
-- What a line `key=value` of the file sets.
use shawncoin.Prelude.{
  ℕ, ◌≡◌, ◌≢◌, refl, sym, ap, subst, Bool, true, false, ◌||◌, Option, none, some, [], ◌∷◌, ◌++◌,
  All, All-append, ◌==◌, lines, lines-append, split_at, arith,
}
use shawncoin.Wire.{Bytes}
use shawncoin.Map.Keys.{bytes_order}
use shawncoin.Map.Laws.{find-insert_self, find-insert_ne}
use shawncoin.Config.{
  Config, strip_comment, trim_end, trim_start, set_value, load_line, load_lines, load, get,
}

-- A character that no rule of the file treats in its own way.
abbrev pub IsPlain : ℕ → Type 0
IsPlain c =
    ((c == b'#') ≡ false)
    × ((c == b'=') ≡ false)
    × ((c == b' ') ≡ false)
    × ((c == b'\r') ≡ false)
    × ((c == b'\n') ≡ false)
    × ((c == b'[') ≡ false)

split-none : (d : ℕ) (text : Bytes) → All (λ c. (c == d) ≡ false) text → split_at d text ≡ none
unfolding split_at
split-none d [] h = refl
split-none d (c ∷ text) (e, h) = rw (split_at, e, split-none d text h) refl

split-some :
    (d : ℕ) (before behind : Bytes)
    → All (λ c. (c == d) ≡ false) before
    → (d == d) ≡ true
    → split_at d (before ++ (d ∷ behind)) ≡ some (before, behind)
unfolding split_at
split-some d [] behind h r = rw (split_at, r) refl
split-some d (c ∷ before) behind (e, h) r = rw (split_at, e, split-some d before behind h r) refl

trim_end-kept :
    (blank : ℕ → Bool) (text : Bytes) → All (λ c. blank c ≡ false) text → trim_end blank text ≡ text
unfolding trim_end
trim_end-kept blank [] h = refl
trim_end-kept blank (c ∷ text) (e, h) = rw (e, trim_end-kept blank text h) refl

start-kept : (text : Bytes) → All IsPlain text → trim_start text ≡ text
unfolding trim_start
start-kept [] h = refl
start-kept (c ∷ text) (p, h) = rw p.2 refl

-- A condition that each character of a text has.
weaken : {P Q : ℕ → Type 0} → ((c : ℕ) → P c → Q c) → (text : Bytes) → All P text → All Q text
weaken f [] h = tt
weaken f (c ∷ text) (p, h) = (f c p, weaken f text h)

module _ (k : ℕ) (ks val : Bytes) where
  abbrev key : Bytes
  key = k ∷ ks

  loaded :
      (config : Config)
      → All IsPlain key
      → All IsPlain val
      → load_line (key ++ (b'=' ∷ val)) [] config ≡ ([], set_value key val config)
  unfolding load_line strip_comment trim_start
  loaded config hk hv =
      let line : Bytes = key ++ (b'=' ∷ val) in
      let no_hash : All (λ c. (c == b'#') ≡ false) line =
        All-append (λ c. (c == b'#') ≡ false) key (b'=' ∷ val) (weaken (λ c p. p.0) key hk)
          (refl, weaken (λ c p. p.0) val hv) in
      let no_blank : All (λ c. ((c == b'\r') || (c == b' ')) ≡ false) line =
        All-append (λ c. ((c == b'\r') || (c == b' ')) ≡ false) key (b'=' ∷ val)
          (weaken (λ c p. ground arith) key hk) (refl, weaken (λ c p. ground arith) val hv) in
      rw
        (
          load_line,
          strip_comment,
          split-none b'#' line no_hash,
          trim_end-kept (λ c. (c == b'\r') || (c == b' ')) line no_blank,
          hk.0.5,
          split-some b'=' key val (weaken (λ c p. p.1) key hk) refl,
          trim_end-kept (λ c. c == b' ') key (weaken (λ c p. p.2) key hk),
          start-kept val hv,
        )
        refl

  -- The file with that line alone.
  abbrev pub file : Bytes
  file = (key ++ (b'=' ∷ val)) ++ (b'\n' ∷ [])

  load-file :
      (config : Config)
      → All IsPlain key
      → All IsPlain val
      → load (some file) config ≡ (set_value key val config, true)
  unfolding load load_lines lines
  load-file config hk hv =
      let no_break : All (λ c. (c == b'\n') ≡ false) (key ++ (b'=' ∷ val)) =
        All-append (λ c. (c == b'\n') ≡ false) key (b'=' ∷ val) (weaken (λ c p. p.4) key hk)
          (refl, weaken (λ c p. p.4) val hv) in
      rw (load, lines-append (key ++ (b'=' ∷ val)) [] no_break, load_lines, loaded config hk hv)
        refl

  -- Loading a file whose one line is `key=value`, of characters that no rule treats in its own way,
  -- succeeds, sets the key to the value, and leaves every other setting as it was.
  pub get-load :
      (config : Config) (default : Bytes)
      → All IsPlain key
      → All IsPlain val
      → ((load (some file) config).1 ≡ true)
        × (get key default (load (some file) config).0 ≡ val)
        × ((other : Bytes)
            → other ≢ key
            → get other default (load (some file) config).0 ≡ get other default config)
  unfolding get set_value
  get-load config default hk hv =
      let pick : Option Bytes → Bytes = λ o. elim o [ none ↦ default | some v ↦ v ] in
      subst
        (λ (r : Config × Bool).
          (r.1 ≡ true)
          × (get key default r.0 ≡ val)
          × ((other : Bytes) → other ≢ key → get other default r.0 ≡ get other default config))
        (sym (load-file config hk hv))
        (
          refl,
          ap pick (find-insert_self key val config.values),
          λ other ne. ap pick (find-insert_ne other key val config.values ne),
        )
