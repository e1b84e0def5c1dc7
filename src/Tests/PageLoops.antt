-- ===== src/Tests/PageLoops.antt =====
-- The theorems on the loops over pages, at a backend that serves two items in two pages.
use dynago.Prelude.{
  ◌≡◌, refl, Bool, true, false, List, [], ◌∷◌, Bytes, bytes, inl, inr, Result, ok, err, validation,
}
use dynago.Attribute.{Item, no_attrs, attr, type_s}
use dynago.Backend.{PageResponse}
use dynago.Client.Pages.Loops.{Ask, is_last, read_all, query_collection}
use dynago.Client.Pages.Serves.{Serves, limited, values_of, known_of}
use dynago.Client.Pages.Complete.{read_all-Serves, query_collection-Serves}
use dynago.Client.Pages.Iterators.{iterate, feed, iterate-feed}
use dynago.Tests.Store.{ann, bob, id}

page_of : Item → Item → PageResponse
page_of item key = record {
  items = item ∷ [];
  count = 1;
  scanned_count = 1;
  last_evaluated_key = key;
}

ask_two : Ask
unfolding page_of
ask_two limit no_attrs = ok (page_of ann (id (bytes "1")))
ask_two limit (attr k v start) = ok (page_of bob no_attrs)

two_pages : Serves ask_two 2 no_attrs (ann ∷ bob ∷ [])
unfolding ask_two is_last page_of
two_pages limit = (
  page_of ann (id (bytes "1")),
  refl,
  inr (refl, (bob ∷ [], refl, λ again. (page_of bob no_attrs, refl, inl (refl, refl)))),
)

-- The first attribute, if it is a string.
name_of : Item → Result Bytes
name_of (attr k (type_s s) item) = ok s
name_of _ = err validation

named : values_of name_of (ann ∷ bob ∷ []) ≡ ok (bytes "1" ∷ bytes "2" ∷ [])
unfolding values_of name_of
named = refl

gather : Result Bytes → List Bytes → List Bytes × Bool
gather (ok s) seen = (s ∷ seen, true)
gather (err e) seen = (seen, false)

read_all-Serves_example : read_all name_of 1 ask_two 2 ≡ ok (bytes "1" ∷ [])
unfolding limited
read_all-Serves_example =
    read_all-Serves name_of 1 ask_two 2 (ann ∷ bob ∷ []) (bytes "1" ∷ bytes "2" ∷ []) two_pages
      named

query_collection-Serves_example :
    query_collection name_of 0 ask_two 2 ≡ ok (limited 0 (known_of name_of (ann ∷ bob ∷ [])))
query_collection-Serves_example =
    query_collection-Serves name_of 0 ask_two 2 (ann ∷ bob ∷ []) two_pages

iterate-feed_example :
    iterate name_of 1 gather ask_two 2 no_attrs [] ≡ ok (bytes "2" ∷ bytes "1" ∷ [])
unfolding feed gather
iterate-feed_example =
    iterate-feed name_of 1 gather ask_two 2 (ann ∷ bob ∷ []) (bytes "1" ∷ bytes "2" ∷ []) []
      two_pages named
