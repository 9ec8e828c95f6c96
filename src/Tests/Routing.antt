-- ===== src/Tests/Routing.antt =====
-- The search in a table of three requests.
use svr.Base.{[], ◌∷◌, List, some, Bytes, ◌≡◌, refl, arith}
use svr.Pack.Encoding.{IsText}
use svr.Server.Requests.{Request, about_stream, open_stream, data_, pause}
use svr.Server.Routing.{Row, find}
use svr.Server.Routing.Search.{IsTable, find-lookup}

abbrev data_string : Bytes
data_string = b'D' ∷ b'a' ∷ b't' ∷ b'a' ∷ []

abbrev open_string : Bytes
open_string = b'S' ∷ b't' ∷ b'r' ∷ b'e' ∷ b'a' ∷ b'm' ∷ b'.' ∷ b'o' ∷ b'p' ∷ b'e' ∷ b'n' ∷ []

abbrev pause_string : Bytes
pause_string =
    b'S' ∷ b't' ∷ b'r' ∷ b'e' ∷ b'a' ∷ b'm' ∷ b'.' ∷ b'p' ∷ b'a' ∷ b'u' ∷ b's' ∷ b'e' ∷ []

data_string-IsText : IsText data_string
data_string-IsText = (
  (λ e. absurd (omega arith)),
  ((λ e. absurd (omega arith)), ((λ e. absurd (omega arith)), ((λ e. absurd (omega arith)), tt))),
)

open_string-IsText : IsText open_string
open_string-IsText = (
  (λ e. absurd (omega arith)),
  (
    (λ e. absurd (omega arith)),
    (
      (λ e. absurd (omega arith)),
      (
        (λ e. absurd (omega arith)),
        (
          (λ e. absurd (omega arith)),
          (
            (λ e. absurd (omega arith)),
            (
              (λ e. absurd (omega arith)),
              (
                (λ e. absurd (omega arith)),
                (
                  (λ e. absurd (omega arith)),
                  ((λ e. absurd (omega arith)), ((λ e. absurd (omega arith)), tt)),
                ),
              ),
            ),
          ),
        ),
      ),
    ),
  ),
)

pause_string-IsText : IsText pause_string
pause_string-IsText = (
  (λ e. absurd (omega arith)),
  (
    (λ e. absurd (omega arith)),
    (
      (λ e. absurd (omega arith)),
      (
        (λ e. absurd (omega arith)),
        (
          (λ e. absurd (omega arith)),
          (
            (λ e. absurd (omega arith)),
            (
              (λ e. absurd (omega arith)),
              (
                (λ e. absurd (omega arith)),
                (
                  (λ e. absurd (omega arith)),
                  (
                    (λ e. absurd (omega arith)),
                    ((λ e. absurd (omega arith)), ((λ e. absurd (omega arith)), tt)),
                  ),
                ),
              ),
            ),
          ),
        ),
      ),
    ),
  ),
)

abbrev three : List (Row Request)
three = (data_string, data_) ∷ (open_string, open_stream) ∷ (pause_string, about_stream pause) ∷ []

three-IsTable : IsTable three
three-IsTable = (
  data_string-IsText,
  (refl, (refl, tt)),
  (open_string-IsText, (refl, tt), (pause_string-IsText, tt, tt)),
)

find-lookup_example : find pause_string three ≡ some (about_stream pause)
find-lookup_example = find-lookup pause_string three pause_string-IsText three-IsTable
