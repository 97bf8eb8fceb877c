-- ===== src/Frames/Tests.antt =====
-- Two pages on a machine of 64 frames, of which the first is taken.
use nos.Prelude.{
  ℕ, ◌*◌, ◌≡◌, ◌⊎◌, refl, List, [], ◌∷◌, some, none, true, false, update, if◌then◌else◌, ◌==◌,
}
use nos.UserMem.{Page}
use nos.Frames.{Frames, set_frame, first_frame, first_word, first_bit, alloc_frame}
use nos.Frames.Bitmap.{taken, FirstFree}
use nos.Frames.Owners.{World, Op, IsSound, calls, calls-IsSound, alloc_frame-lowest}

abbrev blank_page : Page
blank_page = record {
  present = false;
  rw = false;
  user = false;
  accessed = false;
  dirty = false;
  frame = 0;
}

abbrev machine : Frames
machine = record { frames = λ i. if i == 0 then 1 else 0; nframes = 64 }

abbrev world : World
world = record { map = machine; page = λ p. blank_page }

world-IsSound : IsSound world
world-IsSound = record { marked = λ p nz. absurd (nz refl); single = λ p q ne nz e. nz refl }

abbrev two_calls : List Op
two_calls = Op.alloc 0 false true ∷ (Op.alloc 1 false true ∷ [])

abbrev page_one : Page
page_one = record {
  present = true;
  rw = true;
  user = true;
  accessed = false;
  dirty = false;
  frame = 1;
}

abbrev page_two : Page
page_two = record {
  present = true;
  rw = true;
  user = true;
  accessed = false;
  dirty = false;
  frame = 2;
}

abbrev map_after : Frames
map_after = set_frame (set_frame machine 4096) 8192

abbrev world_after : World
world_after = record {
  map = map_after;
  page = update (update (λ p. blank_page) 0 page_one) 1 page_two;
}

two_calls_run : calls two_calls world ≡ some world_after
unfolding alloc_frame first_frame first_word first_bit set_frame
two_calls_run = refl

calls-IsSound_example : IsSound world_after
calls-IsSound_example = calls-IsSound two_calls world world_after world-IsSound two_calls_run

alloc_frame-lowest_test :
    ((f : ℕ) × FirstFree machine 0 64 (some f)
      × (alloc_frame machine blank_page false true
          ≡ some (
            record blank_page { present = true; rw = true; user = true; frame = f },
            set_frame machine (f * 4096),
          ))
      × ((g : ℕ)
          → taken (set_frame machine (f * 4096)) g ≡ (if f == g then 1 else taken machine g)))
    ⊎ (FirstFree machine 0 64 none × (alloc_frame machine blank_page false true ≡ none))
alloc_frame-lowest_test = alloc_frame-lowest machine blank_page false true refl
