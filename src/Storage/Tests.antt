-- ===== src/Storage/Tests.antt =====
-- A database with one conversation.
use enxame.Base.{◌≡◌, refl, false, [], ◌∷◌}
use enxame.Base.Exec.{ok}
use enxame.Storage.{Machine, new_storage, store_message}
use enxame.Storage.Queries.{get_messages}
use enxame.Storage.History.{row_of, get_messages-store_message}

abbrev machine : Machine
machine = record { now = 7; fails = λ st. false }

no_messages : (get_messages machine "#a" 1 new_storage).0 ≡ ok []
unfolding get_messages
no_messages = refl

get_messages-store_message_example :
    (get_messages machine "#a" 2 (store_message machine "m1" "ana" "#a" "hello" new_storage).1).0
    ≡ ok (record (row_of 7 "m1" "ana" "#a" "hello" new_storage) { message_id = "" } ∷ [])
get_messages-store_message_example =
    ((get_messages-store_message machine machine "m1" "ana" "#a" "hello" "#a" 1 [] new_storage refl
          no_messages).0
        refl).0
      refl
