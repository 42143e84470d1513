-- ===== src/Rooms/Listing/Cuts.antt =====
-- How the rows that `ListPublicOpen` fetches are cut into a page and the rest.
use billiards_online.Base.{
  ℕ, suc, ◌-◌, ◌<◌, ◌≡◌, ◌⊎◌, inl, inr, refl, sym, ap, ◌∙◌, true, false, some, List, [], ◌∷◌, ◌++◌,
  map, take, length, get_elem?, ltb, arith,
}
use billiards_online.Rooms.Model.{Room, Member}
use billiards_online.Rooms.Listing.{Codec, summary_of, encode_cursor, decode_cursor, page}
use billiards_online.Rooms.Listing.Pages.{Faithful, decode-encode}

-- How a list is cut into a page of k + 1 rows and the rest.
pub record Cut {A B : Type 0} (f : A → B) (k : ℕ) (xs : List A) : Type 0 where
  pub front : List A
  pub last : A
  pub rest : List A
  pub whole : xs ≡ front ++ last ∷ rest
  pub shorter : length rest < length xs
  pub page_rows : take (suc k) (map f (take (suc (suc k)) xs)) ≡ map f (front ++ last ∷ [])
  pub last_row : get_elem? (map f (take (suc (suc k)) xs)) k ≡ some (f last)
  pub more : ltb (suc k) (length (map f (take (suc (suc k)) xs))) ≡ true

abbrev pub Ends : {A B : Type 0} → (A → B) → ℕ → List A → Type 0
Ends f k xs = (take (suc (suc k)) xs ≡ xs) × (ltb (suc k) (length (map f xs)) ≡ false)

pub cut : {A B : Type 0} (f : A → B) (k : ℕ) (xs : List A) → Ends f k xs ⊎ Cut f k xs
cut f k [] = inl (refl, ground arith)
cut f ℕ.zero (x ∷ []) = inl (refl, refl)
cut f ℕ.zero (x ∷ y ∷ xs) = inr (record {
  front = [];
  last = x;
  rest = y ∷ xs;
  whole = refl;
  shorter = omega arith;
  page_rows = refl;
  last_row = refl;
  more = refl;
})
cut f (suc k) (x ∷ xs) = elim (cut f k xs) [
  | inl (whole, short) ↦ inl (ap (◌∷◌ x) whole, ground arith)
  | inr c ↦ inr (record {
    front = x ∷ c.front;
    last = c.last;
    rest = c.rest;
    whole = ap (◌∷◌ x) c.whole;
    shorter = omega (arith, c.shorter);
    page_rows = ap (◌∷◌ (f x)) c.page_rows;
    last_row = c.last_row;
    more = ground (arith, c.more);
  })
]

pub joined :
    {A B : Type 0} (f : A → B) (front : List A) (x : A) (rest : List A)
    → map f (front ++ x ∷ []) ++ map f rest ≡ map f (front ++ x ∷ rest)
joined f [] x rest = refl
joined f (y ∷ front) x rest = ap (◌∷◌ (f y)) (joined f front x rest)

pub encode-nonempty :
    (codec : Codec) (t id : ℕ) → Faithful codec → ¬ (encode_cursor codec t id ≡ [])
unfolding decode_cursor
encode-nonempty codec t id f e = cc (ap (decode_cursor codec) (sym e) ∙ decode-encode codec t id f)

module _ (codec : Codec) (k : ℕ) (ms : List Member) where
  -- The page that a list leads to: all of it, or its front with the cursor of the last row.
  pub page_at_end :
      (xs : List Room)
      → Ends (summary_of ms) k xs
      → page codec (suc k) (map (summary_of ms) (take (suc (suc k)) xs))
        ≡ (map (summary_of ms) xs, [])
  unfolding page
  page_at_end xs (whole, short) = rw whole (rw short refl)

  pub page_before_rest :
      (xs : List Room) (c : Cut (summary_of ms) k xs)
      → page codec (suc k) (map (summary_of ms) (take (suc (suc k)) xs)) ≡ (
        map (summary_of ms) (c.front ++ c.last ∷ []),
        encode_cursor codec c.last.created_at c.last.id,
      )
  unfolding page summary_of
  page_before_rest xs c =
      let same : suc k - 1 ≡ k = omega arith in
      let row = ap (get_elem? (map (summary_of ms) (take (suc (suc k)) xs))) same ∙ c.last_row in
      rw c.more (rw c.page_rows (rw row refl))
