-- ===== src/Routing/Edge.antt =====
-- src/audio/graph.cpp: one edge of the graph, read from a line of the routing file and written to it.
-- Texts are the bytes before their NUL.
pub mod Reading
use audiox.Prelude.Result.{Result, ok, err}
use audiox.Prelude.Decimal.{decimal}
use Prim.Native.Nat.{suc, min, ℕ}
use audiox.Prelude.{
  ◌^◌, ◌+◌, zero, ltb, ◌||◌, ◌-◌, ◌*◌, ◌&&◌, some, not, none, min, ◌∷◌, ◌==◌, ◌++◌, true, take, leb,
  if◌then◌else◌, false, codes, [], Option, ℕ, List, Bool,
}

pub record Edge : Type 0 where
  pub src : List ℕ
  pub dst : List ℕ
  pub src_channel : ℕ
  pub dst_channel : ℕ

-- Into a buffer of `size` bytes.
abbrev pub copy_bounded : ℕ → List ℕ → List ℕ
copy_bounded size text = take (size - 1) text

abbrev pub is_space : ℕ → Bool
is_space c = (c == 32) || (leb 9 c && leb c 13)

unfoldable pub trim_start : List ℕ → List ℕ
trim_start [] = []
trim_start (c ∷ cs) = let rest = trim_start cs in if is_space c then rest else c ∷ cs

abbrev pub is_nil : List ℕ → Bool
is_nil [] = true
is_nil (c ∷ cs) = false

unfoldable pub trim_end : List ℕ → List ℕ
trim_end [] = []
trim_end (c ∷ cs) = let rest = trim_end cs in if is_space c && is_nil rest then [] else c ∷ rest

unfoldable pub trim_space : List ℕ → List ℕ
trim_space text = trim_end (trim_start text)

-- The text before its first comma, and the text behind that.
unfoldable pub cut : List ℕ → List ℕ × Option (List ℕ)
cut [] = ([], none)
cut (c ∷ cs) = let (field, more) = cut cs in if c == b',' then ([], some cs) else (c ∷ field, more)

-- At most so many fields; the comma behind the last one is cut off, too.
unfoldable pub fields : ℕ → List ℕ → List (List ℕ)
fields zero text = []
fields (suc n) text = (cut text).0 ∷ elim (cut text).1 [ none ↦ [] | some rest ↦ fields n rest ]

unfoldable pub has_comma : List ℕ → Bool
has_comma [] = false
has_comma (c ∷ cs) = (c == b',') || has_comma cs

abbrev is_digit : ℕ → Bool
is_digit c = leb 48 c && leb c 57

-- The digits at the start, as a number, and the rest.
unfoldable pub digits : ℕ → List ℕ → ℕ × List ℕ
digits n [] = (n, [])
digits n (c ∷ cs) =
    let more = digits (n * 10 + (c - 48)) cs in if is_digit c then more else (n, c ∷ cs)

-- `strtol` in base 10: the sign, the magnitude, which stops at the range of a long, and the rest:
-- the whole text where there is no digit.
pub record Number : Type 0 where
  pub minus : Bool
  pub magnitude : ℕ
  pub rest : List ℕ

unfoldable pub unsigned : Bool → List ℕ → List ℕ → Number
unsigned minus text [] = record { minus = false; magnitude = 0; rest = text }
unsigned minus text (c ∷ cs) =
    let (n, rest) = digits 0 (c ∷ cs) in
    if is_digit c
    then record {
      minus = minus;
      magnitude = min n (if minus then 2 ^ 63 else 2 ^ 63 - 1);
      rest = rest;
    }
    else record { minus = false; magnitude = 0; rest = text }

unfoldable pub signed : List ℕ → List ℕ → Number
signed text [] = unsigned false text []
signed text (c ∷ cs) =
    if c == b'-'
    then unsigned true text cs
    else if c == b'+'
    then unsigned false text cs
    else unsigned false text (c ∷ cs)

unfoldable pub strtol : List ℕ → Number
strtol text = signed text (trim_start text)

-- A channel: nothing behind the number, which is from 0 to 255.
unfoldable pub channel : List ℕ → Option ℕ
channel text =
    let n = strtol text in
    if not (is_nil n.rest) || ((n.minus && ltb 0 n.magnitude) || ltb 255 n.magnitude)
    then none
    else some n.magnitude

pub data RouteError : Type 0 where
  bad_format : RouteError
  missing_endpoint : RouteError
  invalid_source_channel : RouteError
  invalid_destination_channel : RouteError

unfoldable pub error_prefix : RouteError → List ℕ
error_prefix bad_format = codes "bad route format"
error_prefix missing_endpoint = codes "missing route endpoint"
error_prefix invalid_source_channel = codes "invalid source channel"
error_prefix invalid_destination_channel = codes "invalid destination channel"

-- `formatRouteParseError` into a buffer of `size` bytes.
unfoldable pub error_text : ℕ → RouteError → List ℕ → List ℕ
error_text size e route = copy_bounded size (error_prefix e ++ codes ": " ++ route)

unfoldable pub with_channels : List ℕ → List ℕ → Option ℕ → Option ℕ → Result RouteError Edge
with_channels src dst none destination = err invalid_source_channel
with_channels src dst (some source) none = err invalid_destination_channel
with_channels src dst (some source) (some destination) = ok (record {
  src = copy_bounded 64 src;
  dst = copy_bounded 64 dst;
  src_channel = source;
  dst_channel = destination;
})

unfoldable pub trimmed_route : List ℕ → List ℕ → List ℕ → List ℕ → Result RouteError Edge
trimmed_route src dst source destination =
    if is_nil src || is_nil dst
    then err missing_endpoint
    else with_channels src dst (channel source) (channel destination)

unfoldable pub parse_fields : List (List ℕ) → Result RouteError Edge
parse_fields (a ∷ b ∷ c ∷ d ∷ []) =
    if has_comma d
    then err bad_format
    else trimmed_route (trim_space a) (trim_space b) (trim_space c) (trim_space d)
parse_fields _ = err bad_format

unfoldable pub parse_route : List ℕ → Result RouteError Edge
parse_route route = parse_fields (fields 4 (copy_bounded 256 route))

-- `snprintf("%s,%s,%u,%u")`, as the routing file has it.
unfoldable pub route_text : Edge → List ℕ
route_text e = copy_bounded 256 (
    e.src ++ (b',' ∷ (e.dst ++ (b',' ∷ (decimal e.src_channel ++ (b',' ∷ decimal e.dst_channel))))))
