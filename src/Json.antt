-- ===== src/Json.antt =====
-- The class SimpleJson of shawncoin/src/rpc/api.cpp. A text is the list of its characters' codes, an
-- int64_t its 64 bits as a number, and a double its 64 bits too, with `print_double` for what an
-- output stream prints of it.
pub mod Method
pub mod Decimal
use shawncoin.Prelude.{
  ℕ, zero, suc, ◌+◌, ◌-◌, ◌/◌, ◌%◌, ◌^◌, Bool, true, false, Option, none, some, List, [], ◌∷◌, ◌++◌,
  length, ltb, ◌==◌, if◌then◌else◌, is_some, codes, find_text, split_at,
}
use shawncoin.Prelude.Optional.{◌>>=◌}
use shawncoin.Wire.{Bytes}
use shawncoin.Transaction.{beq_bytes}

mutual
  pub data Json : Type 0 where
    string : Bytes → Json
    number : ℕ → Json
    real : ℕ → Json
    boolean : Bool → Json
    null : Json
    array : Items → Json
    object : Members → Json

  pub data Items : Type 0 where
    no_items : Items
    item : Json → Items → Items

  -- A std::map: the keys are in order and different.
  pub data Members : Type 0 where
    no_members : Members
    member : Bytes → Json → Members → Members

unfoldable pub find_member : Bytes → Members → Option Json
find_member key no_members = none
find_member key (member k v rest) =
    let found = find_member key rest in if beq_bytes k key then some v else found

-- Only the method is read: the text between the next two quotes behind the first colon behind
-- `"method"`.
unfoldable pub find_method : Bytes → Option Bytes
find_method request = do
  at_method ← find_text (codes "\"method\"") request
  at_colon ← find_text (codes ":") at_method
  at_quote ← split_at b'"' at_colon
  at_end ← split_at b'"' at_quote.1
  some at_end.0

unfoldable pub parse : Bytes → Json
unfolding find_method
parse request = elim (find_method request) [
  | none ↦ object no_members
  | some method ↦ object (member (codes "method") (string method) no_members)
]

unfoldable pub contains : Bytes → Json → Bool
contains key (object ms) = is_some (find_member key ms)
contains key _ = false

-- operator[] of a key: a copy of the value.
unfoldable pub at_key : Bytes → Json → Json
at_key key (object ms) = elim (find_member key ms) [ none ↦ null | some v ↦ v ]
at_key key _ = null

-- operator=: the target afterwards.
unfoldable pub assign : Json → Json → Json
assign v target = v

-- `j[key] = v`: operator[] is const and returns a copy, so the value is assigned to the copy, which is
-- then dropped.
unfoldable pub assign_at : Bytes → Json → Json → Json
unfolding at_key assign
assign_at key v j = let dropped : Json = assign v (at_key key j) in j

unfoldable pub is_string : Json → Bool
is_string (string s) = true
is_string _ = false

unfoldable pub is_object : Json → Bool
is_object (object ms) = true
is_object _ = false

unfoldable pub is_array : Json → Bool
is_array (array items) = true
is_array _ = false

-- get<std::string>, and get<uint64_t>; get<int> is the low 32 bits.
unfoldable pub get_string : Json → Bytes
get_string (string s) = s
get_string _ = []

unfoldable pub get_uint64 : Json → ℕ
get_uint64 (number n) = n
get_uint64 _ = 0

unfoldable pub get_int : Json → ℕ
get_int (number n) = n % 2 ^ 32
get_int _ = 0

unfoldable pub count_items : Items → ℕ
count_items no_items = 0
count_items (item v rest) = suc (count_items rest)

unfoldable pub count_members : Members → ℕ
count_members no_members = 0
count_members (member k v rest) = suc (count_members rest)

unfoldable pub size : Json → ℕ
unfolding count_items count_members
size (array items) = count_items items
size (object ms) = count_members ms
size _ = 0

unfoldable pub append_item : Items → Json → Items
append_item no_items v = item v no_items
append_item (item w rest) v = item w (append_item rest v)

unfoldable pub push_back : Json → Json → Json
unfolding append_item
push_back v (array items) = array (append_item items v)
push_back v _ = array (item v no_items)

unfoldable pub nth_item : Items → ℕ → Json
nth_item no_items i = null
nth_item (item v rest) zero = v
nth_item (item v rest) (suc i) = nth_item rest i

-- operator[] of an index that is not negative.
unfoldable pub at_index : ℕ → Json → Json
unfolding nth_item
at_index i (array items) = nth_item items i
at_index i _ = null

-- A number in decimal digits. Each round divides n, so `suc n` rounds are enough.
unfoldable pub decimal_digits : ℕ → ℕ → Bytes
decimal_digits zero n = []
decimal_digits (suc fuel) n =
    let rest = decimal_digits fuel (n / 10) in
    if ltb n 10 then (48 + n) ∷ [] else rest ++ ((48 + n % 10) ∷ [])

unfoldable pub decimal : ℕ → Bytes
unfolding decimal_digits
decimal n = decimal_digits (suc n) n

-- An int64_t.
unfoldable pub decimal_int : ℕ → Bytes
unfolding decimal
decimal_int n = if ltb n (2 ^ 63) then decimal n else b'-' ∷ decimal (2 ^ 64 - n)

unfoldable pub quoted : Bytes → Bytes
quoted s = b'"' ∷ (s ++ (b'"' ∷ []))

module _ (print_double : ℕ → Bytes) where
  unfoldable mutual
    unfolding quoted decimal_int

    pub dump : Json → Bytes
    dump (string s) = quoted s
    dump (number n) = decimal_int n
    dump (real d) = print_double d
    dump (boolean true) = codes "true"
    dump (boolean false) = codes "false"
    dump null = codes "null"
    dump (array items) = b'[' ∷ (dump_items true items ++ (b']' ∷ []))
    dump (object ms) = b'{' ∷ (dump_members true ms ++ (b'}' ∷ []))

    -- Whether it is the first, which has no comma before it.
    pub dump_items : Bool → Items → Bytes
    dump_items _ no_items = []
    dump_items true (item v rest) = dump v ++ dump_items false rest
    dump_items false (item v rest) = b',' ∷ (dump v ++ dump_items false rest)

    pub dump_members : Bool → Members → Bytes
    dump_members _ no_members = []
    dump_members true (member k v rest) = quoted k ++ (b':' ∷ (dump v ++ dump_members false rest))
    dump_members false (member k v rest) =
        b',' ∷ (quoted k ++ (b':' ∷ (dump v ++ dump_members false rest)))
