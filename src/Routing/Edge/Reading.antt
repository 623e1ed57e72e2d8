-- ===== src/Routing/Edge/Reading.antt =====
-- Routes of src/audio/graph.cpp, written and read back.
use audiox.Prelude.Result.{ok}
use audiox.Prelude.Decimal.{decimal, decimal_digits}
use audiox.Prelude.Bytes.{all_below, all_below_sound}
use audiox.Prelude.Text.{and_parts}
use audiox.Routing.Edge.{
  ℕ, List, Bool, Edge, is_nil, trim_start, trim_end, trim_space, cut, fields, has_comma, digits,
  unsigned, signed, strtol, channel, with_channels, trimmed_route, parse_fields, parse_route,
  route_text,
}
use audiox.Prelude.{
  take-all, length-append, append_assoc, ◌∙◌, zero, leb→le, leb, not, inr, arith, ==_iff, ◌-◌, ◌&&◌,
  take-nil, append-nil, ap, ◌⊎◌, ◌≤◌, ◌∷◌, ◌==◌, suc, refl, inl, ◌||◌, ◌++◌, true, take, some, none,
  length, false, [], Option, ◌≡◌, ◌<◌, ℕ, List, Bool,
}

-- An identifier as the graph has it: up to 63 bytes, no comma, no white space around it.
pub record IsId (text : List ℕ) : Type 0 where
  pub some_byte : is_nil text ≡ false
  pub short : length text ≤ 63
  pub no_comma : has_comma text ≡ false
  pub trimmed : trim_space text ≡ text

pub record IsEdge (e : Edge) : Type 0 where
  pub src_id : IsId e.src
  pub dst_id : IsId e.dst
  pub src_byte : e.src_channel < 256
  pub dst_byte : e.dst_channel < 256

-- What may stand behind the fourth field: nothing, or a comma and any text.
abbrev pub Behind : List ℕ → Type 0
Behind rest = (rest ≡ []) ⊎ ((r : List ℕ) × (rest ≡ b',' ∷ r))

or_false : (a b : Bool) → (a || b) ≡ false → (a ≡ false) × (b ≡ false)
or_false true b h = cc
or_false false b h = (refl, h)

cut-append : (a r : List ℕ) → has_comma a ≡ false → cut (a ++ (b',' ∷ r)) ≡ (a, some r)
unfolding cut has_comma
cut-append [] r h = refl
cut-append (c ∷ a) r h =
    let (plain, rest) = or_false (c == b',') (has_comma a) h in rw (cut-append a r rest, plain) refl

cut_whole : (a : List ℕ) → has_comma a ≡ false → cut a ≡ (a, none)
unfolding cut has_comma
cut_whole [] h = refl
cut_whole (c ∷ a) h =
    let (plain, rest) = or_false (c == b',') (has_comma a) h in rw (cut_whole a rest, plain) refl

cut-Behind : (a rest : List ℕ) → has_comma a ≡ false → Behind rest → (cut (a ++ rest)).0 ≡ a
cut-Behind a rest h (inl e) = rw (e, append-nil a, cut_whole a h) refl
cut-Behind a rest h (inr (r, e)) = rw (e, cut-append a r h) refl

fields_step :
    (n : ℕ) (a r : List ℕ) → has_comma a ≡ false → fields (suc n) (a ++ (b',' ∷ r)) ≡ a ∷ fields n r
unfolding fields
fields_step n a r h = rw (cut-append a r h) refl

fields_last : (a rest : List ℕ) → has_comma a ≡ false → Behind rest → fields 1 (a ++ rest) ≡ a ∷ []
unfolding fields
fields_last a rest h b = rw (cut-Behind a rest h b) (last (cut (a ++ rest)).1)
  where
    last :
        (o : Option (List ℕ))
        → ◌≡◌ {A = List (List ℕ)} (a ∷ elim o [ none ↦ [] | some r ↦ [] ]) (a ∷ [])
    last none = refl
    last (some r) = refl

-- The channels are read back, by evaluation of every one.
reads_back : ℕ → Bool
reads_back n =
    (elim (channel (trim_space (decimal n))) [ none ↦ false | some m ↦ m == n ])
    && (not (has_comma (decimal n)) && leb (length (decimal n)) 3)

reads_back_table : all_below 256 reads_back ≡ true
unfolding all_below reads_back channel trim_space trim_start trim_end decimal decimal_digits strtol
    signed unsigned digits has_comma
reads_back_table = refl

record IsNumber (n : ℕ) : Type 0 where
  read : channel (trim_space (decimal n)) ≡ some n
  plain : has_comma (decimal n) ≡ false
  short : length (decimal n) ≤ 3

byte-IsNumber : (n : ℕ) → n < 256 → IsNumber n
unfolding reads_back
byte-IsNumber n h =
    let (same, others) = and_parts _ _ (all_below_sound 256 reads_back n reads_back_table h) in
    let (no_comma, three) = and_parts _ _ others in
    record {
      read = number _ same;
      plain = not_true (has_comma (decimal n)) no_comma;
      short = leb→le (length (decimal n)) 3 three;
    }
  where
    number : (o : Option ℕ) → (elim o [ none ↦ false | some m ↦ m == n ]) ≡ true → o ≡ some n
    number none p = cc
    number (some m) p = ap some ((==_iff m n).0 p)

    not_true : (b : Bool) → not b ≡ true → b ≡ false
    not_true true p = cc
    not_true false p = refl

-- The text of a route.
abbrev pub line : Edge → List ℕ
line e =
    e.src ++ (b',' ∷ (e.dst ++ (b',' ∷ (decimal e.src_channel ++ (b',' ∷ decimal e.dst_channel)))))

take-Behind : (n : ℕ) (rest : List ℕ) → Behind rest → Behind (take n rest)
take-Behind n rest (inl e) = inl (rw e (take-nil ℕ n))
take-Behind zero rest (inr (r, e)) = inl refl
take-Behind (suc n) rest (inr (r, e)) = inr (take n r, rw e refl)

take-append :
    (n : ℕ) (xs ys : List ℕ) → length xs ≤ n → take n (xs ++ ys) ≡ xs ++ take (n - length xs) ys
take-append n [] ys h = ap (λ k. take k ys) (omega arith)
take-append zero (x ∷ xs) ys h = absurd (omega arith)
take-append (suc n) (x ∷ xs) ys h =
    ap (λ r. x ∷ r) (take-append n xs ys (omega arith) ∙ ap (λ k. xs ++ take k ys) (omega arith))

module _ (e : Edge) (v : IsEdge e) where
  src_channel-IsNumber : IsNumber e.src_channel
  src_channel-IsNumber = byte-IsNumber e.src_channel v.src_byte

  dst_channel-IsNumber : IsNumber e.dst_channel
  dst_channel-IsNumber = byte-IsNumber e.dst_channel v.dst_byte

  length-line : length (line e) ≤ 135
  length-line =
      let last = b',' ∷ decimal e.dst_channel in
      let numbers = b',' ∷ (decimal e.src_channel ++ last) in
      omega (
        arith,
        length-append e.src (b',' ∷ (e.dst ++ numbers)),
        length-append e.dst numbers,
        length-append (decimal e.src_channel) last,
        v.src_id.short,
        v.dst_id.short,
        src_channel-IsNumber.short,
        dst_channel-IsNumber.short,
      )

  route_text_whole : route_text e ≡ line e
  unfolding route_text
  route_text_whole = take-all 255 (line e) (omega (arith, length-line))

  fields-line :
      (rest : List ℕ)
      → Behind rest
      → fields 4 (line e ++ rest)
        ≡ e.src ∷ e.dst ∷ decimal e.src_channel ∷ decimal e.dst_channel ∷ []
  fields-line rest b =
      let d = decimal e.dst_channel ++ rest in
      let c = decimal e.src_channel ++ (b',' ∷ d) in
      let parts : line e ++ rest ≡ e.src ++ (b',' ∷ (e.dst ++ (b',' ∷ c))) = simp append_assoc in
      ap (fields 4) parts
      ∙ fields_step 3 e.src (e.dst ++ (b',' ∷ c)) v.src_id.no_comma
      ∙ ap (λ l. e.src ∷ l)
          (fields_step 2 e.dst c v.dst_id.no_comma
            ∙ ap (λ l. e.dst ∷ l)
                (fields_step 1 (decimal e.src_channel) d src_channel-IsNumber.plain
                  ∙ ap (λ l. decimal e.src_channel ∷ l)
                      (fields_last (decimal e.dst_channel) rest dst_channel-IsNumber.plain b)))

  parse_fields-eq :
      parse_fields (e.src ∷ e.dst ∷ decimal e.src_channel ∷ decimal e.dst_channel ∷ []) ≡ ok e
  unfolding parse_fields trimmed_route with_channels
  parse_fields-eq =
      rw
        (
          dst_channel-IsNumber.plain,
          v.src_id.trimmed,
          v.dst_id.trimmed,
          v.src_id.some_byte,
          v.dst_id.some_byte,
          src_channel-IsNumber.read,
          dst_channel-IsNumber.read,
          with_channels,
          v.src_id.trimmed,
          v.dst_id.trimmed,
          take-all 63 e.src v.src_id.short,
          take-all 63 e.dst v.dst_id.short,
        )
        refl

-- A route that the code writes is read back, also where a comma and any text stand behind it: that
-- text is ignored, not refused. Its identifiers have 1 to 63 bytes, no comma and no white space
-- around them, and its channels are below 256.
pub parse_route-route_text :
    (e : Edge) (rest : List ℕ) → IsEdge e → Behind rest → parse_route (route_text e ++ rest) ≡ ok e
unfolding parse_route
parse_route-route_text e rest v b =
    let whole : take 255 (route_text e ++ rest) ≡ line e ++ take (255 - length (line e)) rest =
      rw (route_text_whole e v) (take-append 255 (line e) rest (omega (arith, length-line e v))) in
    ap (λ text. parse_fields (fields 4 text)) whole
    ∙ ap parse_fields (fields-line e v _ (take-Behind _ rest b))
    ∙ parse_fields-eq e v
