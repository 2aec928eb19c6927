-- ===== src/Handlers/Tests.antt =====
-- A listing of five entries in pieces of two.
use gocryptsftp.Base.{ℕ, true, ◌≡◌, refl, some, List, [], ◌∷◌, arith}
use gocryptsftp.Handlers.Listerat.{list_at}
use gocryptsftp.Handlers.Paging.{read_pieces, read_pieces-drop}

abbrev five : List ℕ
five = 5 ∷ 6 ∷ 7 ∷ 8 ∷ 9 ∷ []

last_piece : list_at five (1 ∷ 2 ∷ []) 4 ≡ record { slice = 9 ∷ 2 ∷ []; count = 1; eof = true }
unfolding list_at
last_piece = refl

read_pieces-drop_example : read_pieces 6 five (0 ∷ 0 ∷ []) 0 ≡ some five
read_pieces-drop_example = read_pieces-drop 6 five (0 ∷ 0 ∷ []) 0 (omega arith) (omega arith)
