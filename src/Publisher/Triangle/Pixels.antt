-- ===== src/Publisher/Triangle/Pixels.antt =====
-- Which pixels of the frame are red.
use ziti_livekit_example.Prelude.{
  ℕ, zero, suc, ◌+◌, ◌-◌, ◌/◌, ◌<◌, ◌≡◌, refl, Bool, ◌&&◌, ltb, leb, eqb, arith, if◌then◌else◌,
}
use ziti_livekit_example.Prelude.Int.{
  ℤ, pos, negsuc, pos_part, neg_part, ◌+ℤ◌, ◌-ℤ◌, +ℤ_parts, -ℤ_parts,
}
use ziti_livekit_example.Publisher.Triangle.{
  Float, Color, Image, red, new_rgba, set_pixel, set_row, fill_rows, rounds, triangle_base_y,
  triangle_tip_y, left_x, right_x, scan_rows, draw_red_triangle,
}

-- i lies in the n places from x on
abbrev pub within : ℤ → ℕ → ℕ → Bool
within x n i = leb (pos_part x) (i + neg_part x) && ltb (i + neg_part x) (pos_part x + n)

abbrev pub inside : Image → ℕ → ℕ → Bool
inside img i j = ltb i img.width && ltb j img.height

pixel-set_pixel :
    (x : ℤ) (y : ℕ) (c : Color) (img : Image) (i j : ℕ)
    → (set_pixel x y c img).pixel i j
      ≡ (if inside img i j && eqb j y && within x 1 i then c else img.pixel i j)
unfolding set_pixel
pixel-set_pixel (negsuc n) y c img i j = ground arith
pixel-set_pixel (pos x) y c img i j = ground arith

size-set_pixel :
    (x : ℤ) (y : ℕ) (c : Color) (img : Image)
    → ((set_pixel x y c img).width ≡ img.width) × ((set_pixel x y c img).height ≡ img.height)
unfolding set_pixel
size-set_pixel (negsuc n) y c img = (refl, refl)
size-set_pixel (pos x) y c img = ground arith

size-set_row :
    (n : ℕ) (x : ℤ) (y : ℕ) (c : Color) (img : Image)
    → ((set_row n x y c img).width ≡ img.width) × ((set_row n x y c img).height ≡ img.height)
unfolding set_row
size-set_row zero x y c img = (refl, refl)
size-set_row (suc n) x y c img =
    ground (arith, size-set_row n (x +ℤ pos 1) y c (set_pixel x y c img), size-set_pixel x y c img)

-- n rounds from x on write their row's places from x to x + n - 1 that lie in the image.
pixel-set_row :
    (n : ℕ) (x : ℤ) (y : ℕ) (c : Color) (img : Image) (i j : ℕ)
    → (set_row n x y c img).pixel i j
      ≡ (if inside img i j && eqb j y && within x n i then c else img.pixel i j)
unfolding set_row
pixel-set_row zero x y c img i j = ground arith
pixel-set_row (suc n) x y c img i j = ground (
  arith,
  pixel-set_row n (x +ℤ pos 1) y c (set_pixel x y c img) i j,
  pixel-set_pixel x y c img i j,
  size-set_pixel x y c img,
  +ℤ_parts x (pos 1),
)

size-fill_rows :
    (n w y : ℕ) (c : Color) (img : Image)
    → ((fill_rows n w y c img).width ≡ img.width) × ((fill_rows n w y c img).height ≡ img.height)
unfolding fill_rows
size-fill_rows zero w y c img = (refl, refl)
size-fill_rows (suc n) w y c img = ground (
  arith,
  size-fill_rows n w (y + 1) c (set_row w (pos 0) y c img),
  size-set_row w (pos 0) y c img,
)

pixel-fill_rows :
    (n w y : ℕ) (c : Color) (img : Image) (i j : ℕ)
    → (fill_rows n w y c img).pixel i j
      ≡ (if inside img i j && ltb i w && leb y j && ltb j (y + n) then c else img.pixel i j)
unfolding fill_rows
pixel-fill_rows zero w y c img i j = ground arith
pixel-fill_rows (suc n) w y c img i j = ground (
  arith,
  pixel-fill_rows n w (y + 1) c (set_row w (pos 0) y c img) i j,
  pixel-set_row w (pos 0) y c img i j,
  size-set_row w (pos 0) y c img,
)

-- i lies between two edges
abbrev pub between : ℤ → ℤ → ℕ → Bool
between left right i =
    leb (pos_part left) (i + neg_part left) && leb (i + neg_part right) (pos_part right)

-- The rounds of a row reach exactly from its left to its right edge.
within-rounds : (l r : ℤ) (i : ℕ) → within l (rounds l r) i ≡ between l r i
unfolding rounds
within-rounds l r i = ground (arith, +ℤ_parts (r -ℤ l) (pos 1), -ℤ_parts r l)

-- A row's span is written from its left to its right edge.
pixel-span :
    (l r : ℤ) (y : ℕ) (img : Image) (i j : ℕ)
    → (set_row (rounds l r) l y red img).pixel i j
      ≡ (if inside img i j && eqb j y && between l r i then red else img.pixel i j)
pixel-span l r y img i j = rw (← within-rounds l r i) (pixel-set_row (rounds l r) l y red img i j)

-- One row more: `b` tells which rows span the place.
scan_step :
    (n y j : ℕ) (b : ℕ → Bool) (ins : Bool) (old new : Color)
    → new ≡ (if ins && eqb j y && b y then red else old)
    → (if ins && leb (y + 1) j && ltb j (y + 1 + n) && b j then red else new)
      ≡ (if ins && leb y j && ltb j (y + suc n) && b j then red else old)
scan_step n y j b ins old new h = ground arith

module _ (float : Float) where
  size-scan_rows :
      (n w h y : ℕ) (img : Image)
      → ((scan_rows float n w h y img).width ≡ img.width)
        × ((scan_rows float n w h y img).height ≡ img.height)
  unfolding scan_rows
  size-scan_rows zero w h y img = (refl, refl)
  size-scan_rows (suc n) w h y img = ground (
    arith,
    size-scan_rows n w h (y + 1) (
        set_row (rounds (left_x float w h y) (right_x float w h y)) (left_x float w h y) y red img),
    size-set_row (rounds (left_x float w h y) (right_x float w h y)) (left_x float w h y) y red img,
  )

  pixel-scan_rows :
      (n w h y : ℕ) (img : Image) (i j : ℕ)
      → (scan_rows float n w h y img).pixel i j ≡ (
          if inside img i j
            && leb y j
            && ltb j (y + n)
            && between (left_x float w h j) (right_x float w h j) i
          then red
          else img.pixel i j)
  unfolding scan_rows
  pixel-scan_rows zero w h y img i j = ground arith
  pixel-scan_rows (suc n) w h y img i j =
      let l = left_x float w h y in
      let r = right_x float w h y in
      let row = set_row (rounds l r) l y red img in
      let size = size-set_row (rounds l r) l y red img in
      rw (pixel-scan_rows n w h (y + 1) row i j, size.0, size.1)
        (scan_step n y j (λ k. between (left_x float w h k) (right_x float w h k) i)
          (inside img i j) (img.pixel i j) (row.pixel i j) (pixel-span l r y img i j))

  -- The frame has the size that was asked for.
  size-draw_red_triangle :
      (w h : ℕ) (col : Color)
      → ((draw_red_triangle float w h col).width ≡ w)
        × ((draw_red_triangle float w h col).height ≡ h)
  unfolding draw_red_triangle new_rgba
  size-draw_red_triangle w h col =
      let back = fill_rows h w 0 col (new_rgba w h) in
      ground (
        arith,
        size-scan_rows (triangle_base_y h + 1 - triangle_tip_y h) w h (triangle_tip_y h) back,
        size-fill_rows h w 0 col (new_rgba w h),
      )

  -- Of the pixels of a frame, those from the triangle's tip row to its base row that lie between the
  -- two edges of their row are red, and all others have the colour of the background.
  pub pixel-draw_red_triangle :
      (w h : ℕ) (col : Color) (i j : ℕ)
      → i < w
      → j < h
      → (draw_red_triangle float w h col).pixel i j ≡ (
          if leb (h / 2 - h / 3 / 2) j
            && leb j (h / 2 + h / 3 / 2)
            && between (left_x float w h j) (right_x float w h j) i
          then red
          else col)
  unfolding draw_red_triangle new_rgba triangle_base_y triangle_tip_y
  pixel-draw_red_triangle w h col i j p q =
      let back = fill_rows h w 0 col (new_rgba w h) in
      ground (
        arith,
        pixel-scan_rows (triangle_base_y h + 1 - triangle_tip_y h) w h (triangle_tip_y h) back i j,
        size-fill_rows h w 0 col (new_rgba w h),
        pixel-fill_rows h w 0 col (new_rgba w h) i j,
      )
