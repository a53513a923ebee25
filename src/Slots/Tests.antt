-- ===== src/Slots/Tests.antt =====
-- The theorems on slots at a concrete layout and page.
use scutedb.Base.{ℕ, ◌≡◌, refl, arith, List, [], ◌∷◌, length, ok}
use scutedb.Page.{Page}
use scutedb.Base.{replicate, length-replicate}
use scutedb.Fileio.Touch.{page_size}
use scutedb.Slots.{Layout, align, new_layout, put}
use scutedb.Slots.Layouts.{IsLayout, new_layout-IsLayout}
use scutedb.Slots.Records.{IsStored, put-IsStored}

-- Records of 5 bytes, aligned to 8.
abbrev fives : Layout
fives = record { record_size = 5; slot_size = 8; capacity = 510; base = 16; alignment = 8 }

fives_made : new_layout 5 8 ≡ ok fives
unfolding new_layout align
fives_made = refl

new_layout-IsLayout_example : IsLayout 5 8 fives
new_layout-IsLayout_example = new_layout-IsLayout 5 8 fives (omega arith) (omega arith) fives_made

abbrev five : List ℕ
five = 1 ∷ 2 ∷ 3 ∷ 4 ∷ 5 ∷ []

abbrev heap_page : Page
heap_page = replicate page_size 0

length-heap_page : length heap_page ≡ page_size
length-heap_page = length-replicate {A = ℕ} page_size 0

put-IsStored_example :
    (q : Page) × (put fives heap_page 2 five ≡ ok q) × IsStored fives heap_page 2 five q
put-IsStored_example =
    put-IsStored {size = 5} {to = 8} fives new_layout-IsLayout_example heap_page 2 five
      length-heap_page (omega arith) refl
