-- ===== src/Samples/Planning.antt =====
-- The sort, the streamer and the planner's repairs at small inputs.
use glassrail.Common.{
  Chars, List, Option, String, [], any, arith, codes, concat, elem, map, none, ok, pos, refl, some,
  true, ℕ, ℤ, ◌↔◌, ◌∷◌, ◌≡◌, ◌⊎◌, string_eq,
}
use glassrail.Core.{Json, Members}
use glassrail.Validator.Topo.{topo_sort}
use glassrail.Validator.Topo.Success.{IsAcyclic}
use glassrail.Validator.Topo.Acyclic.{topo_sort_iff}
use glassrail.Planner.Payload.{get}
use glassrail.Planner.Repair.{append_result}
use glassrail.Planner.Repair.Terminal.{IsEnded, append_result_lem}
use glassrail.Executor.Streamer.{JsonFieldStreamer, new_streamer, feed_all}
use glassrail.Executor.Streamer.RoundTrip.{
  Piece, meant, hex_digit, written_all, IsPiece, AllPieces, HexLaw, IsReady, feed_all_round_trip,
}
use glassrail.Samples.{plan_nodes}

topo_sort_iff_example :
    ((out : List ℤ) × (topo_sort plan_nodes ≡ ok out))
    ↔ ((rank : ℤ → ℕ) × IsAcyclic plan_nodes rank)
topo_sort_iff_example = topo_sort_iff plan_nodes

-- The streamer, within the text of its field.
abbrev streamer : JsonFieldStreamer
streamer = record (new_streamer (codes "reasoning")) { found = true }

abbrev chr_of_hex : Chars → Option ℕ
chr_of_hex (a ∷ b ∷ c ∷ d ∷ []) = some (meant (Piece.unicode a b c d))
chr_of_hex _ = none

chr_of_hex-HexLaw : HexLaw chr_of_hex
unfolding HexLaw
chr_of_hex-HexLaw a b c d valid = refl

abbrev pieces : List Piece
pieces = Piece.plain b'a' ∷ Piece.newline ∷ Piece.unicode b'0' b'0' b'e' b'9' ∷ []

abbrev chunks : List Chars
chunks = codes "a\\" ∷ codes "n\\u00" ∷ codes "e9\"," ∷ []

pieces-AllPieces : AllPieces pieces
unfolding AllPieces IsPiece hex_digit
pieces-AllPieces =
    ((λ e. ground (arith, e), λ e. ground (arith, e)), (tt, ((refl, refl, refl, refl, refl), tt)))

streamer-IsReady : IsReady streamer
unfolding new_streamer
streamer-IsReady = record { found = refl; going = refl; no_escape = refl; no_digits = refl }

feed_all_round_trip_example :
    ((feed_all chr_of_hex streamer chunks).1 ≡ map meant pieces)
    × ((feed_all chr_of_hex streamer chunks).0.done ≡ true)
unfolding new_streamer concat written_all
feed_all_round_trip_example =
    feed_all_round_trip chr_of_hex chr_of_hex-HexLaw streamer pieces (codes ",") chunks
      pieces-AllPieces streamer-IsReady refl refl

-- Two values of one key, of which the later is null.
abbrev pairs : List (String × Json)
pairs = ("tool", Json.str "search") ∷ ("tool", Json.null) ∷ []

-- A plan of one synthesis node.
abbrev payload : List Json
payload =
    Json.obj (
      Members.member "id" (Json.int (pos 4))
        (Members.member "type" (Json.str "synthesis") Members.end))
    ∷ []

abbrev repaired : List Json
repaired = elim (append_result payload) [ none ↦ [] | some vs ↦ vs ]

repairs : append_result payload ≡ some repaired
unfolding append_result any get elem
repairs = refl

append_result_lem_example : (repaired ≡ payload) ⊎ IsEnded payload repaired
append_result_lem_example = append_result_lem payload repaired repairs
