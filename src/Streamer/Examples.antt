-- ===== src/Streamer/Examples.antt =====
-- A number, a string, a list and a streamer, put and got.
use rssdisk.Base.{some, map, ◌≡◌, refl, List, [], ◌∷◌, length, arith}
use rssdisk.Bitbase.{numeric_to_chars, comress_list}
use rssdisk.Streamer.{
  holding, get_string, put_number, put_text, put_list, put_streamer, put_streamers, strings_of,
}
use rssdisk.Streamer.Fields.{Field, number, chars, list, packed, packed_list, put, Fits, read_back}
use rssdisk.Streamer.RoundTrip.{put_all, get_all_like, get_all_like-put_all}

abbrev values : List Field
values =
    number 4 300
    ∷ chars 2 (104 ∷ 105 ∷ [])
    ∷ list 2 (300 ∷ 7 ∷ [])
    ∷ packed (holding (1 ∷ []))
    ∷ packed_list (holding [] ∷ holding (2 ∷ []) ∷ [])
    ∷ []

length-values : length (put_all values (holding [])).bytes ≡ 54
unfolding put put_number put_text put_list put_streamer put_streamers get_string strings_of
    numeric_to_chars comress_list
length-values = refl

fresh : Fits (list 2 (300 ∷ 7 ∷ []))
fresh = (omega arith, omega arith, (omega arith, (omega arith, tt)))

get_all_like-put_all_example :
    get_all_like values (put_all values (holding []))
    ≡ some (
      map read_back values,
      record {
        bytes = (put_all values (holding [])).bytes;
        read_pos = length (put_all values (holding [])).bytes;
      },
    )
get_all_like-put_all_example =
    get_all_like-put_all values
      (omega arith, ((omega arith, omega arith), (fresh, (refl, ((refl, (refl, tt)), tt)))))
      (omega (arith, length-values))
