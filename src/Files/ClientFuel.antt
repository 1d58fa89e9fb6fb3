-- ===== src/Files/ClientFuel.antt =====
-- The fuel of the client's loops over a listing and a download: every round that is not the last
-- takes from the stream.
use game_network.Files.Commands.{end_line}
use game_network.Files.Fuel.{recv_line_takes}
use game_network.Files.Client.{listing_line, listing}
use game_network.Prelude.{
  ℕ, zero, suc, ◌-◌, ◌<◌, ◌≡◌, refl, sym, ◌∙◌, ap, if◌then◌else◌, none, some, Option, List, [], ◌∷◌,
  ◌++◌, arith, length, until, same_text, newline,
}
use game_network.Files.Line.{buf_size, recv_line}
use game_network.Files.Download.{Reply, skip, stop, write, after_line, download, reply}

listing_line_same :
    (next next' : List ℕ → List (List ℕ) × List ℕ) (line : Option (List ℕ)) (rest : List ℕ)
    → next rest ≡ next' rest
    → listing_line next line rest ≡ listing_line next' line rest
unfolding listing_line
listing_line_same next next' none rest e = refl
listing_line_same next next' (some []) rest e = refl
listing_line_same next next' (some (b ∷ bs)) rest e =
    let text = until 0 (b ∷ bs) in
    ap (λ got. if same_text text end_line then (text ∷ [], rest) else (text ∷ got.0, got.1)) e

listing_over : (f : ℕ) → listing (suc f) [] ≡ ([], [])
unfolding listing listing_line recv_line
listing_over f = refl

download_over : (f : ℕ) → download (suc f) [] ≡ ([], [])
unfolding download after_line reply recv_line
download_over f = refl

-- The listing is the same with any fuel that is more than the number of bytes of the stream.
listing_enough :
    (f g : ℕ) (stream : List ℕ)
    → length stream < f
    → length stream < g
    → listing f stream ≡ listing g stream
unfolding listing
listing_enough zero g stream hf hg = absurd (omega arith)
listing_enough (suc f) zero stream hf hg = absurd (omega arith)
listing_enough (suc f) (suc g) [] hf hg = listing_over f ∙ sym (listing_over g)
listing_enough (suc f) (suc g) (c ∷ stream) hf hg =
    let (line, rest) = recv_line (buf_size - 1) (c ∷ stream) in
    let less = recv_line_takes 4094 c stream in
    listing_line_same (listing f) (listing g) line rest
      (listing_enough f g rest (omega arith) (omega arith))

after_line_same :
    (next next' : List ℕ → List ℕ × List ℕ) (r : Reply) (rest : List ℕ)
    → next rest ≡ next' rest
    → after_line next r rest ≡ after_line next' r rest
unfolding after_line
after_line_same next next' skip rest e = e
after_line_same next next' stop rest e = refl
after_line_same next next' (write text) rest e = ap (λ got. (text ++ (newline ∷ got.0), got.1)) e

-- The download is the same with any fuel that is more than the number of bytes of the stream.
download_enough :
    (f g : ℕ) (stream : List ℕ)
    → length stream < f
    → length stream < g
    → download f stream ≡ download g stream
unfolding download
download_enough zero g stream hf hg = absurd (omega arith)
download_enough (suc f) zero stream hf hg = absurd (omega arith)
download_enough (suc f) (suc g) [] hf hg = download_over f ∙ sym (download_over g)
download_enough (suc f) (suc g) (c ∷ stream) hf hg =
    let (line, rest) = recv_line (buf_size - 1) (c ∷ stream) in
    let less = recv_line_takes 4094 c stream in
    after_line_same (download f) (download g) (reply line) rest
      (download_enough f g rest (omega arith) (omega arith))
