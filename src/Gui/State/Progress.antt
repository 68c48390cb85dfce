-- ===== src/Gui/State/Progress.antt =====
-- The transfers that the user sees.
use g04_final_project_d_25_c.Prelude.{
  ℕ, ◌≤◌, ◌<◌, ℤ, pos, negsuc, Bool, String, Option, none, some, ◌≡◌, refl, subst, ◌==◌, String_eq,
  Bool-cases, Option-cases, inl, inr, arith, leb, if◌then◌else◌,
}
use g04_final_project_d_25_c.Dict.{Dict, get, put, get-put}
use g04_final_project_d_25_c.Gui.Model.{
  FileTransfer, TransferStatus, pending, uploading, complete, error, MessageKind,
}
use g04_final_project_d_25_c.Gui.Application.{
  ApplicationModel, add_file_transfer, change_transfer, clamp, update_file_transfer_progress,
  complete_file_transfer, error_file_transfer, add_message, change_room, add_or_update_room,
  remove_room, target_room,
}
use g04_final_project_d_25_c.Gui.State.{GuiState}
use g04_final_project_d_25_c.Gui.State.Reach.{Known, Closed, any_event, always}

-- The progress that a status goes with.
abbrev pub Fits : TransferStatus → ℕ → Type 0
Fits pending n = n ≡ 0
Fits uploading n = n < 100
Fits complete n = n ≡ 100
Fits error n = n ≤ 100

abbrev pub IsSound : Option FileTransfer → Type 0
IsSound none = Unit
IsSound (some t) = Fits t.status t.progress

abbrev pub AllSound : ApplicationModel → Type 0
AllSound m = (id : String) → IsSound (get id m.file_transfers)

Fits-le : (s : TransferStatus) (n : ℕ) → Fits s n → n ≤ 100
Fits-le pending n h = omega arith
Fits-le uploading n h = omega arith
Fits-le complete n h = omega arith
Fits-le error n h = h

clamp-le : (z : ℤ) → clamp z ≤ 100
unfolding clamp
clamp-le (pos n) = ground arith
clamp-le (negsuc n) = omega arith

put-AllSound :
    (id other : String) (t : FileTransfer) (ts : Dict String FileTransfer)
    → Fits t.status t.progress
    → IsSound (get other ts)
    → IsSound (get other (put id t ts))
put-AllSound id other t ts h p = elim (Bool-cases (id == other)) [
  | inl e ↦ rw (get-put id other t ts, e) h
  | inr e ↦ rw (get-put id other t ts, e) p
]

change_transfer-AllSound :
    (id : String) (f : FileTransfer → FileTransfer) (m : ApplicationModel)
    → ((t : FileTransfer) → Fits t.status t.progress → Fits (f t).status (f t).progress)
    → AllSound m
    → AllSound (change_transfer id f m)
change_transfer-AllSound id f m k p other = elim (Option-cases (get id m.file_transfers)) [
  | inl e ↦ rw (change_transfer, e) (p other)
  | inr (t, e) ↦
      rw (change_transfer, e)
        (put-AllSound id other (f t) m.file_transfers (k t (subst IsSound e (p id))) (p other))
]

progress-Fits : (n : ℕ) → n ≤ 100 → Fits (if leb 100 n then complete else uploading) n
progress-Fits n h = elim (Bool-cases (leb 100 n)) [
  | inl e ↦ rw (e) (ground arith)
  | inr e ↦ rw (e) (ground arith)
]

add_message-AllSound :
    (sender content time : String) (room target : Option String) (b : Bool) (k : Option MessageKind)
    (m : ApplicationModel)
    → AllSound m
    → AllSound (add_message sender content time room target b k m)
unfolding add_message change_room
add_message-AllSound sender content time room target b k m p =
    elim (Bool-cases (target_room room target m == "")) [ inl e ↦ rw (e) p | inr e ↦ rw (e) p ]

remove_room-AllSound :
    (room : String) (m : ApplicationModel) → AllSound m → AllSound (remove_room room m)
unfolding remove_room
remove_room-AllSound room m p = elim (Bool-cases (room == "global")) [
  | inl e ↦ rw (e) p
  | inr e ↦ rw (e) p
]

AllSound-Closed : Closed any_event AllSound
unfolding add_or_update_room change_room add_file_transfer update_file_transfer_progress
    complete_file_transfer error_file_transfer
AllSound-Closed = record {
  at_name = λ n m p. p;
  at_token = λ t m p. p;
  at_status = λ s m p. p;
  at_users = λ u m p. p;
  at_friends = λ f m p. p;
  at_message = λ s c t r u b k m one p. add_message-AllSound s c t r u b k m p;
  at_unread = λ r m h p. p;
  at_room = λ r m p. p;
  at_current = λ r m p. p;
  at_removed = λ r m h p. remove_room-AllSound r m p;
  at_started = λ i n z m p other. put-AllSound i other _ m.file_transfers refl (p other);
  at_progress =
      λ i z m p. change_transfer-AllSound i _ m (λ t h. progress-Fits (clamp z) (clamp-le z)) p;
  at_complete = λ i m p. change_transfer-AllSound i _ m (λ t h. refl) p;
  at_failed = λ i e m p. change_transfer-AllSound i _ m (λ t h. Fits-le t.status t.progress h) p;
}

-- A transfer that the client knows has a progress from 0 to 100 that fits its status: 0 while it is
-- pending, less than 100 while it is uploading, and 100 when it is complete. No progress that the
-- server reports, not one below 0 or above 100 either, changes that.
pub transfers_fit : (g : GuiState) → Known any_event g → AllSound g.model
unfolding get
transfers_fit g k = always AllSound-Closed g k (λ id. tt)
