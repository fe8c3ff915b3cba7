-- ===== src/Config.antt =====
-- shawncoin/src/util/config.cpp: the settings, read from a file and from the arguments. A text is the
-- list of its characters' codes; an int is its 32 bits as a number.
pub mod Port
pub mod Lines
use shawncoin.Prelude.{
  ℕ, zero, suc, ◌+◌, ◌-◌, ◌*◌, ◌%◌, ◌^◌, Bool, true, false, ◌&&◌, ◌||◌, Option, none, some, List,
  [], ◌∷◌, ◌++◌, length, drop, leb, ltb, ◌==◌, if◌then◌else◌, is_some, codes, lines, after_prefix,
  find_text, split_at,
}
use shawncoin.Prelude.Optional.{◌>>=◌}
use shawncoin.Wire.{Bytes}
use shawncoin.Map.{find, insert}
use shawncoin.Map.Keys.{bytes_order}
use shawncoin.Transaction.{beq_bytes}

pub record Config : Type 0 where
  pub values : List (Bytes × Bytes)
  pub add_nodes : List Bytes
  pub testnet : Bool

unfoldable pub new_config : Config
new_config = record { values = []; add_nodes = []; testnet = false }

unfoldable pub set_testnet : Bool → Config → Config
set_testnet v config = record config { testnet = v }

-- The line without its comment, and without the blanks and carriage returns at its end.
unfoldable pub strip_comment : Bytes → Bytes
strip_comment line = elim (split_at b'#' line) [ none ↦ line | some parts ↦ parts.0 ]

unfoldable pub trim_end : (ℕ → Bool) → Bytes → Bytes
trim_end blank [] = []
trim_end blank (c ∷ text) =
    let rest = trim_end blank text in if blank c && (length rest == 0) then [] else c ∷ rest

unfoldable pub trim_start : Bytes → Bytes
trim_start [] = []
trim_start (c ∷ text) = let rest = trim_start text in if c == b' ' then rest else c ∷ text

-- `values_[key] = val`, and the nodes to add.
unfoldable pub set_value : Bytes → Bytes → Config → Config
set_value key val config = record config {
  values = insert key val config.values;
  add_nodes =
      if is_some (find_text (codes "addnode") key)
      then config.add_nodes ++ (val ∷ [])
      else config.add_nodes;
}

-- A line, with the section afterwards.
unfoldable pub load_line : Bytes → Bytes → Config → Bytes × Config
unfolding strip_comment trim_end trim_start set_value
load_line line section config =
    elim (trim_end (λ c. (c == b'\r') || (c == b' ')) (strip_comment line)) [
      | [] ↦ (section, config)
      | first ∷ text ↦
          if first == b'['
          then (elim (split_at b']' text) [ none ↦ [] | some parts ↦ parts.0 ], config)
          else elim (split_at b'=' (first ∷ text)) [
            | none ↦ (section, config)
            | some (before, behind) ↦
                let name = trim_end (λ c. c == b' ') before in
                let key = if length section == 0 then name else section ++ (b'.' ∷ name) in
                (section, set_value key (trim_start behind) config)
          ]
    ]

unfoldable pub load_lines : List Bytes → Bytes → Config → Config
unfolding load_line
load_lines [] section config = config
load_lines (line ∷ rest) section config =
    let (section', config') = load_line line section config in load_lines rest section' config'

-- The content of the file, `none` where it cannot be opened.
unfoldable pub load : Option Bytes → Config → Config × Bool
unfolding load_lines
load file config = elim file [
  | none ↦ (config, false)
  | some text ↦ (load_lines (lines text) [] config, true)
]

-- An argument that no branch before has taken: `--key=value`, `--key`, or anything else, which is
-- ignored.
unfoldable pub set_argument : Bytes → Config → Config
set_argument arg config = elim (after_prefix (codes "--") arg) [
  | none ↦ config
  | some text ↦ elim (split_at b'=' text) [
    | none ↦ record config { values = insert text [] config.values }
    | some (key, val) ↦ record config { values = insert key val config.values }
  ]
]

-- The arguments behind the program's name. `--datadir` takes the next one, where there is one.
unfoldable pub load_from_args : List Bytes → Config → Config
unfolding set_argument
load_from_args [] config = config
load_from_args (arg ∷ []) config =
    if beq_bytes arg (codes "--testnet")
    then set_testnet true config
    else if beq_bytes arg (codes "--mine")
    then record config { values = insert (codes "mine") (codes "1") config.values }
    else set_argument arg config
load_from_args (arg ∷ next ∷ args) config =
    if beq_bytes arg (codes "--testnet")
    then load_from_args (next ∷ args) (set_testnet true config)
    else if beq_bytes arg (codes "--mine")
    then load_from_args (next ∷ args)
        (record config { values = insert (codes "mine") (codes "1") config.values })
    else if beq_bytes arg (codes "--datadir")
    then load_from_args args
        (record config { values = insert (codes "datadir") next config.values })
    else load_from_args (next ∷ args) (set_argument arg config)

unfoldable pub get : Bytes → Bytes → Config → Bytes
get key default config = elim (find key config.values) [ none ↦ default | some v ↦ v ]

-- std::stoi: blanks, a sign, and the digits up to the first other character; `none` where it throws,
-- because there is no digit or the number is no int.
unfoldable pub skip_blanks : Bytes → Bytes
skip_blanks [] = []
skip_blanks (c ∷ text) =
    let rest = skip_blanks text in if (c == 32) || (leb 9 c && leb c 13) then rest else c ∷ text

unfoldable pub read_digits : ℕ → Bytes → ℕ
read_digits n [] = n
read_digits n (c ∷ text) =
    let rest = read_digits (10 * n + (c - 48)) text in if leb 48 c && leb c 57 then rest else n

unfoldable pub starts_digit : Bytes → Bool
starts_digit [] = false
starts_digit (c ∷ text) = leb 48 c && leb c 57

unfoldable pub stoi : Bytes → Option ℕ
unfolding skip_blanks read_digits starts_digit
stoi text = elim (skip_blanks text) [
  | [] ↦ none
  | c ∷ rest ↦
      let digits = if (c == b'-') || (c == b'+') then rest else c ∷ rest in
      let n = read_digits 0 digits in
      if starts_digit digits
      then (if c == b'-'
          then (if leb n (2 ^ 31) then some ((2 ^ 32 - n) % 2 ^ 32) else none)
          else (if ltb n (2 ^ 31) then some n else none))
      else none
]

-- `none` where an exception is thrown.
unfoldable pub get_int : Bytes → ℕ → Config → Option ℕ
unfolding stoi
get_int key default config =
    let v = get key [] config in if length v == 0 then some default else stoi v

-- The port where the int is between 1 and 65535, and otherwise the default.
unfoldable pub get_port : Bytes → ℕ → Config → Option ℕ
unfolding get_int
get_port key default config = elim (get_int key default config) [
  | none ↦ none
  | some p ↦ some (if ltb 0 p && ltb p 65536 then p else default)
]

-- `home` is the variable HOME of the environment; on Windows APPDATA is tried too.
unfoldable pub get_data_dir : Option Bytes → Config → Bytes
unfolding get
get_data_dir home config =
    let d = get (codes "datadir") [] config in
    if length d == 0
    then (elim home [ none ↦ codes ".shawncoin" | some h ↦ h ++ codes "/.shawncoin" ])
    else d
