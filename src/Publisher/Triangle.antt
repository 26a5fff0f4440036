-- ===== src/Publisher/Triangle.antt =====
-- drawRedTriangle of publisher/main.go: the frame that the publisher sends. Floating-point numbers
-- are a parameter; an image.RGBA is its size and its pixels.
pub mod Pixels
use ziti_livekit_example.Prelude.{
  ℕ, zero, suc, ◌+◌, ◌-◌, ◌/◌, Bool, ◌&&◌, ltb, eqb, leb, if◌then◌else◌,
}
use ziti_livekit_example.Prelude.Int.{ℤ, pos, negsuc, pos_part, neg_part, ◌+ℤ◌, ◌-ℤ◌}

-- float64, with Go's conversions from and to int.
pub record Float : Type 1 where
  pub F : Type 0
  pub of_int : ℕ → F
  pub to_int : F → ℤ
  pub add : F → F → F
  pub sub : F → F → F
  pub mul : F → F → F
  pub div : F → F → F

-- color.RGBA
pub record Color : Type 0 where
  pub r : ℕ
  pub g : ℕ
  pub b : ℕ
  pub a : ℕ

-- *image.RGBA with its bounds at the origin; `pixel x y` is what At(x, y) gives within them.
pub record Image : Type 0 where
  pub width : ℕ
  pub height : ℕ
  pub pixel : ℕ → ℕ → Color

abbrev pub red : Color
red = record { r = 255; g = 0; b = 0; a = 255 }

-- image.NewRGBA(image.Rect(0, 0, width, height))
unfoldable pub new_rgba : ℕ → ℕ → Image
new_rgba width height = record {
  width = width;
  height = height;
  pixel = λ x y. record { r = 0; g = 0; b = 0; a = 0 };
}

abbrev pub put : ℕ → ℕ → Color → (ℕ → ℕ → Color) → ℕ → ℕ → Color
put x y c f i j = if eqb i x && eqb j y then c else f i j

-- img.Set(x, y, c), which does nothing outside the bounds
unfoldable pub set_pixel : ℤ → ℕ → Color → Image → Image
set_pixel (negsuc n) y c img = img
set_pixel (pos x) y c img =
    if ltb x img.width && ltb y img.height then record img { pixel = put x y c img.pixel } else img

-- for x := x0; …; x++ { img.Set(x, y, c) }, by the rounds left
unfoldable pub set_row : ℕ → ℤ → ℕ → Color → Image → Image
unfolding set_pixel
set_row zero x y c img = img
set_row (suc n) x y c img = set_row n (x +ℤ pos 1) y c (set_pixel x y c img)

-- The outer loop over y of the background.
unfoldable pub fill_rows : ℕ → ℕ → ℕ → Color → Image → Image
unfolding set_row
fill_rows zero width y c img = img
fill_rows (suc n) width y c img = fill_rows n width (y + 1) c (set_row width (pos 0) y c img)

-- rightX - leftX + 1 rounds, and none if rightX < leftX
unfoldable pub rounds : ℤ → ℤ → ℕ
unfolding ◌+ℤ◌ ◌-ℤ◌
rounds left right = pos_part (right -ℤ left +ℤ pos 1)

-- The coordinates of the triangle in an image of a size.
unfoldable pub triangle_base_y : ℕ → ℕ
triangle_base_y height = height / 2 + height / 3 / 2

unfoldable pub triangle_tip_y : ℕ → ℕ
triangle_tip_y height = height / 2 - height / 3 / 2

unfoldable pub triangle_base_x1 : ℕ → ℕ
triangle_base_x1 width = width / 2 - width / 2 / 2

unfoldable pub triangle_base_x2 : ℕ → ℕ
triangle_base_x2 width = width / 2 + width / 2 / 2

unfoldable pub triangle_tip_x : ℕ → ℕ
triangle_tip_x width = width / 2

module _ (float : Float) where
  open float use {F, of_int, to_int, add, sub, mul, div}

  -- t := float64(y-triangleTipY) / float64(triangleBaseY-triangleTipY)
  unfoldable pub progress : ℕ → ℕ → F
  progress height y =
      div (of_int (y - triangle_tip_y height))
        (of_int (triangle_base_y height - triangle_tip_y height))

  -- int(float64(triangleTipX)*(1-t) + float64(baseX)*t)
  unfoldable pub edge : ℕ → ℕ → F → ℤ
  edge tip base t = to_int (add (mul (of_int tip) (sub (of_int 1) t)) (mul (of_int base) t))

  unfoldable pub left_x : ℕ → ℕ → ℕ → ℤ
  unfolding progress edge
  left_x width height y = edge (triangle_tip_x width) (triangle_base_x1 width) (progress height y)

  unfoldable pub right_x : ℕ → ℕ → ℕ → ℤ
  unfolding progress edge
  right_x width height y = edge (triangle_tip_x width) (triangle_base_x2 width) (progress height y)

  -- The scanline loop from a row on, by the rounds left.
  unfoldable pub scan_rows : ℕ → ℕ → ℕ → ℕ → Image → Image
  unfolding set_row rounds left_x right_x
  scan_rows zero width height y img = img
  scan_rows (suc n) width height y img = scan_rows n width height (y + 1) (
      set_row (rounds (left_x width height y) (right_x width height y)) (left_x width height y) y
        red img)

  -- drawRedTriangle, with the random colour of the background
  unfoldable pub draw_red_triangle : ℕ → ℕ → Color → Image
  unfolding new_rgba fill_rows scan_rows triangle_tip_y triangle_base_y
  draw_red_triangle width height col =
      scan_rows (triangle_base_y height + 1 - triangle_tip_y height) width height
        (triangle_tip_y height) (fill_rows height width 0 col (new_rgba width height))
