-- ===== src/Tests/Removals.antt =====
-- A backend with one worker, removed.
use ipojknm.Prelude.{true, false, ℕ, ◌<◌, ◌≤◌, some, [], length, ◌≡◌, ◌≢◌, refl, arith}
use ipojknm.Manager.Removal.{
  Position, idle, elsewhere, holding, asking, responding, of_worker, of_dial, closed, Removal,
  buffer_size, set, start, leave_select, come_back, find, ask, take, answer_other, respond, remove,
  tell, all_told, close, Reach, unmoved, moved,
}
use ipojknm.Manager.Removal.Safe.{is_away, Reach-closed}
use ipojknm.Manager.Removal.Panics.{removal-crashes}

abbrev positions_after : ℕ → Position
positions_after = set 0 elsewhere (
    set 0 idle
      (set 0 responding (set 0 asking (set 0 holding (set 0 idle (set 0 elsewhere (λ i. idle)))))))

-- The worker comes back from another backend first.
abbrev came_back : ℕ → Position
came_back = set 0 idle (set 0 elsewhere (λ i. idle))

abbrev at_asking : Removal
at_asking = record start {
  positions = set 0 asking (set 0 holding came_back);
  handled = some (of_worker 0);
}

asked : Reach 1 false true start at_asking
asked =
    moved
      (moved
        (moved
          (moved (moved unmoved (leave_select 0 (omega arith) refl refl refl))
            (come_back 0 (omega arith) refl refl refl refl))
          (find 0 (omega arith) refl refl refl refl))
        (ask 0 (omega arith) refl refl refl (omega arith) refl))
      (take (of_worker 0) [] refl refl refl refl refl)

abbrev at_end : Removal
at_end = record start { positions = positions_after; routed = false; phase = closed }

removed_after : Reach 1 false true start at_end
removed_after =
    moved
      (moved
        (moved
          (moved
            (moved
              (moved (moved asked (answer_other 0 (omega arith) refl refl refl refl))
                (respond 0 (omega arith) refl refl refl))
              (remove refl refl refl))
            (tell 0 refl refl (omega arith) refl refl))
          (all_told refl refl refl))
        (close refl refl refl refl))
      (leave_select 0 (omega arith) refl refl refl)

Reach-closed_example :
    (at_end.phase ≡ closed → (i : ℕ) → i < 1 → is_away (at_end.positions i) ≡ true)
    × (length at_end.queue ≤ buffer_size)
    × ((i : ℕ) → at_end.crashed ≢ some (of_worker i))
Reach-closed_example = Reach-closed 1 true at_end removed_after

abbrev in_flight : Removal
in_flight = record start { dials = 1 }

removal-crashes_example :
    (q : Removal) × Reach 1 false true in_flight q × (q.crashed ≡ some of_dial)
removal-crashes_example =
    removal-crashes 1 false true in_flight of_dial refl refl refl (λ i few. refl) (omega arith)
