-- ===== src/Model/Space.antt =====
-- strings.Fields, strings.Join with a space, and strings.TrimSpace, on bytes. The white space of
-- unicode.IsSpace is recognised in its UTF-8 form.
use rss2msg.Prelude.{
  ℕ, zero, suc, Str, List, [], ◌∷◌, ◌++◌, ◌&&◌, ◌||◌, leb, ◌==◌, is_empty, if◌then◌else◌,
}

-- How many bytes of the white-space rune at the head lie behind its first one.
pub data Lead : Type 0 where
  word : Lead
  space : ℕ → Lead

lead_2 : ℕ → Str → Lead
lead_2 x [] = word
lead_2 x (y ∷ s) = if x == 0xc2 && (y == 0x85 || y == 0xa0) then space 1 else word

lead_3 : ℕ → Str → Lead
lead_3 x [] = word
lead_3 x (y ∷ []) = word
lead_3 x (y ∷ z ∷ s) =
    if x == 0xe1 && y == 0x9a && z == 0x80
      || x == 0xe2 && y == 0x80 && (leb 0x80 z && leb z 0x8a || z == 0xa8 || z == 0xa9 || z == 0xaf)
      || x == 0xe2 && y == 0x81 && z == 0x9f
      || x == 0xe3 && y == 0x80 && z == 0x80
    then space 2
    else word

unfoldable pub lead : ℕ → Str → Lead
unfolding lead_2 lead_3
lead x s =
    if x == 32 || leb 9 x && leb x 13 then space 0 else if x == 0xc2 then lead_2 x s else lead_3 x s

abbrev pub flush : Str → List Str → List Str
flush [] rest = rest
flush (x ∷ w) rest = (x ∷ w) ∷ rest

-- `skip` counts the bytes that still belong to a white-space rune, `w` is the word so far.
unfoldable pub fields_loop : ℕ → Str → Str → List Str
unfolding lead
fields_loop skip w [] = flush w []
fields_loop (suc skip) w (x ∷ s) = fields_loop skip w s
fields_loop zero w (x ∷ s) = elim (lead x s) [
  | word ↦ fields_loop zero (w ++ x ∷ []) s
  | space k ↦ flush w (fields_loop k [] s)
]

-- strings.Fields
unfoldable pub fields : Str → List Str
unfolding fields_loop
fields s = fields_loop 0 [] s

-- strings.Join(ws, " ")
unfoldable pub join_words : List Str → Str
join_words [] = []
join_words (w ∷ []) = w
join_words (w ∷ v ∷ ws) = w ++ (32 ∷ join_words (v ∷ ws))

unfoldable trim_left : ℕ → Str → Str
unfolding lead
trim_left skip [] = []
trim_left (suc skip) (x ∷ s) = trim_left skip s
trim_left zero (x ∷ s) = elim (lead x s) [ word ↦ x ∷ s | space k ↦ trim_left k s ]

unfoldable trim_right : Str → Str
unfolding trim_left
trim_right [] = []
trim_right (x ∷ s) = if is_empty (trim_left 0 (x ∷ s)) then [] else x ∷ trim_right s

-- strings.TrimSpace
unfoldable pub trim_space : Str → Str
unfolding trim_left trim_right
trim_space s = trim_right (trim_left 0 s)
