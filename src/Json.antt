-- ===== src/Json.antt =====
-- JSON values, and `json.dumps(value, sort_keys=True, separators=(",", ":"))` to code points. The
-- program's private payloads are dicts of such values.
use Prim.Native.String.{compare}
use Prim.Native.Nat.{Ordering}
use ditto_screener.Prelude.{
  ℕ, zero, suc, ◌+◌, ◌-◌, ◌/◌, ◌%◌, String, Bool, true, false, List, [], ◌∷◌, ◌++◌, codes, ltb,
  ◌==◌, nat_equality, text_equality, Option, none, some, if◌then◌else◌, ◌||◌,
}
use ditto_screener.Prelude.Int.{ℤ, pos, negsuc}

-- A float: a finite one is a fraction, `numerator / denominator`, kept with its printed form.
pub data Double : Type 0 where
  finite : List ℕ → ℤ → ℕ → Double
  infinite : Bool → Double
  nan : Double

mutual
  pub data Json : Type 0 where
    null : Json
    bool : Bool → Json
    int : ℤ → Json
    float : Double → Json
    str : String → Json
    arr : Items → Json
    obj : Fields → Json

  pub data Items : Type 0 where
    nil : Items
    cons : Json → Items → Items

  pub data Fields : Type 0 where
    end : Fields
    field : String → Json → Fields → Fields

-- The decimal digits of a number, in front of `rest`. A number has no more digits than its value
-- plus one, which is the fuel that `decimal` gives.
decimal_loop : ℕ → ℕ → List ℕ → List ℕ
decimal_loop zero n rest = rest
decimal_loop (suc fuel) n rest =
    let more = decimal_loop fuel (n / 10) ((b'0' + n % 10) ∷ rest) in
    if ltb n 10 then (b'0' + n) ∷ rest else more

unfoldable pub decimal : ℕ → List ℕ
unfolding decimal_loop
decimal n = decimal_loop (suc n) n []

hex_digit : ℕ → ℕ
hex_digit d = if ltb d 10 then b'0' + d else b'a' + (d - 10)

-- `\uXXXX` for one UTF-16 unit
hex_escape : ℕ → List ℕ
unfolding hex_digit
hex_escape u =
    b'\\'
    ∷ b'u'
    ∷ hex_digit (u / 4096 % 16)
    ∷ hex_digit (u / 256 % 16)
    ∷ hex_digit (u / 16 % 16)
    ∷ hex_digit (u % 16)
    ∷ []

-- `ensure_ascii`: what is not printable ASCII is escaped, beyond the BMP as a surrogate pair.
escape : ℕ → List ℕ
unfolding hex_escape
escape c =
    if c == 34
    then b'\\' ∷ 34 ∷ []
    else if c == 92
    then b'\\' ∷ b'\\' ∷ []
    else if c == 10
    then b'\\' ∷ b'n' ∷ []
    else if c == 13
    then b'\\' ∷ b'r' ∷ []
    else if c == 9
    then b'\\' ∷ b't' ∷ []
    else if c == 12
    then b'\\' ∷ b'f' ∷ []
    else if c == 8
    then b'\\' ∷ b'b' ∷ []
    else if ltb c 32 || ltb 126 c
    then (if ltb c 65536
        then hex_escape c
        else hex_escape (55296 + (c - 65536) / 1024) ++ hex_escape (56320 + (c - 65536) % 1024))
    else c ∷ []

escape_all : List ℕ → List ℕ
unfolding escape
escape_all [] = []
escape_all (c ∷ cs) = escape c ++ escape_all cs

quote : String → List ℕ
unfolding escape_all
quote s = 34 ∷ (escape_all (codes s) ++ (34 ∷ []))

printed : Double → List ℕ
printed (finite text n d) = text
printed (infinite true) = codes "-Infinity"
printed (infinite false) = codes "Infinity"
printed nan = codes "NaN"

unfoldable pub signed : ℤ → List ℕ
unfolding decimal
signed (pos n) = decimal n
signed (negsuc n) = b'-' ∷ decimal (n + 1)

-- `sort_keys`: keys in the order of their code points.
abbrev pub key_le : String → String → Bool
key_le a b = elim (compare a b) [ Ordering.gt ↦ false | _ ↦ true ]

abbrev pub get : String → Fields → Option Json
get k end = none
get k (field j v rest) = if j == k then some v else get k rest

-- `set(d)`
abbrev pub keys : Fields → List String
keys end = []
keys (field k v rest) = k ∷ keys rest

insert_key : String × List ℕ → List (String × List ℕ) → List (String × List ℕ)
insert_key (k, v) [] = (k, v) ∷ []
insert_key (k, v) ((j, w) ∷ rest) =
    let later = insert_key (k, v) rest in
    if key_le k j then (k, v) ∷ (j, w) ∷ rest else (j, w) ∷ later

sort_keys : List (String × List ℕ) → List (String × List ℕ)
unfolding insert_key
sort_keys [] = []
sort_keys (e ∷ es) = insert_key e (sort_keys es)

-- `",".join(parts)`
commas : List (List ℕ) → List ℕ
commas [] = []
commas (p ∷ []) = p
commas (p ∷ q ∷ rest) = p ++ (b',' ∷ commas (q ∷ rest))

entries : List (String × List ℕ) → List (List ℕ)
unfolding quote
entries [] = []
entries ((k, v) ∷ rest) = (quote k ++ (b':' ∷ v)) ∷ entries rest

unfoldable mutual
  unfolding quote signed printed sort_keys commas entries

  pub dumps : Json → List ℕ
  dumps null = codes "null"
  dumps (bool true) = codes "true"
  dumps (bool false) = codes "false"
  dumps (int n) = signed n
  dumps (float x) = printed x
  dumps (str s) = quote s
  dumps (arr xs) = b'[' ∷ (commas (dumps_items xs) ++ (b']' ∷ []))
  dumps (obj fs) = b'{' ∷ (commas (entries (sort_keys (dumps_fields fs))) ++ (b'}' ∷ []))

  dumps_items : Items → List (List ℕ)
  dumps_items nil = []
  dumps_items (cons x xs) = dumps x ∷ dumps_items xs

  dumps_fields : Fields → List (String × List ℕ)
  dumps_fields end = []
  dumps_fields (field k v fs) = (k, dumps v) ∷ dumps_fields fs

-- `sorted(set(texts))`
insert_unique : String → List String → List String
insert_unique a [] = a ∷ []
insert_unique a (b ∷ rest) =
    let later = insert_unique a rest in
    if a == b then b ∷ rest else if key_le a b then a ∷ b ∷ rest else b ∷ later

unfoldable pub sorted_set : List String → List String
unfolding insert_unique
sorted_set [] = []
sorted_set (a ∷ rest) = insert_unique a (sorted_set rest)
