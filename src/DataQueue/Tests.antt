-- ===== src/DataQueue/Tests.antt =====
-- The theorems on the queue of dataqueue.c, at queues of a few bytes.
use evnet.Base.{ℕ, ◌≡◌, refl, inr, List, [], ◌∷◌, ◌++◌, arith, true, some, none}
use evnet.Base.Block.{slice}
use evnet.DataQueue.{DataQueue, insert_data, next_data, distill_data, read_span, remove_data}
use evnet.DataQueue.Shape.{IsValid, contents}
use evnet.DataQueue.Insert.{Extends, insert_data-Extends}
use evnet.DataQueue.Read.{Offers, next_data-Offers, Drops, distill_after_next_data}
use evnet.DataQueue.Wedge.{insert_data_after_next_data, insert_data_wedged, remove_data_empties}

-- Four bytes that go round the end of a block of eight.
abbrev wrapped : DataQueue
wrapped = record {
  insert_pos = 2;
  terminal_pos = 8;
  query_pos = 6;
  data_size = 4;
  buffer_size = 8;
  buffer = some (1 ∷ 2 ∷ 3 ∷ 4 ∷ 5 ∷ 6 ∷ 7 ∷ 8 ∷ []);
}

-- Seven bytes that all stand at the front, with the three positions behind them.
abbrev wedged : DataQueue
wedged = record {
  insert_pos = 7;
  terminal_pos = 7;
  query_pos = 7;
  data_size = 7;
  buffer_size = 9;
  buffer = some (1 ∷ 2 ∷ 3 ∷ 4 ∷ 5 ∷ 6 ∷ 7 ∷ 8 ∷ 9 ∷ []);
}

wrapped-IsValid : IsValid wrapped
wrapped-IsValid = record { placed = omega arith; shape = inr (omega arith) }

wedged-IsValid : IsValid wedged
wedged-IsValid = record { placed = omega arith; shape = inr (omega arith) }

wrapped-contents : contents wrapped ≡ 7 ∷ 8 ∷ 1 ∷ 2 ∷ []
unfolding contents slice
wrapped-contents = refl

-- Two more bytes fit in front of the reader; five do not.
abbrev five : List ℕ
five = 9 ∷ 10 ∷ 11 ∷ 12 ∷ 13 ∷ []

insert_data-Extends_example :
    (q' : DataQueue) × (insert_data wrapped five ≡ some q') × Extends wrapped five q'
insert_data-Extends_example =
    insert_data-Extends five wrapped-IsValid (λ w. omega (arith, w.query)) (omega arith)

insert_data_wedged_example :
    (q' : DataQueue) × (insert_data wedged (10 ∷ []) ≡ some q')
    × (q'.data_size ≡ 8)
    × ((next_data q').1.count ≡ 1)
    × (read_span (next_data q').0 (next_data q').1 1 ≡ some (10 ∷ []))
    × ((next_data (distill_data q' 1)).1.count ≡ 8)
    × (read_span (next_data (distill_data q' 1)).0 (next_data (distill_data q' 1)).1 8
        ≡ some (contents wedged ++ (10 ∷ [])))
insert_data_wedged_example =
    insert_data_wedged (10 ∷ []) wedged-IsValid (omega arith) (omega arith) (omega arith)

next_data-Offers_example : Offers wrapped 1 (next_data wrapped)
next_data-Offers_example = next_data-Offers 1 wrapped-IsValid (omega arith)

distill_after_next_data_example : Drops wrapped 1 (distill_data (next_data wrapped).0 1)
unfolding next_data
distill_after_next_data_example =
    distill_after_next_data 1 wrapped-IsValid (omega arith) (omega arith)

insert_data_after_next_data_example :
    (q' : DataQueue) × (insert_data (next_data wedged).0 five ≡ some q') × Extends wedged five q'
insert_data_after_next_data_example =
    insert_data_after_next_data five wedged-IsValid (omega arith) (omega arith)

remove_data_empties_example :
    IsValid (remove_data wrapped true)
    × (contents (remove_data wrapped true) ≡ [])
    × ((remove_data wrapped true).buffer ≡ none)
remove_data_empties_example = remove_data_empties true wrapped-IsValid
