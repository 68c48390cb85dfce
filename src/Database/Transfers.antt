-- ===== src/Database/Transfers.antt =====
-- database/db.py: the record of file transfers.
use g04_final_project_d_25_c.Prelude.{ℕ, not, String, ◌==◌, String_eq, Option, keep_if, update_rows}
use g04_final_project_d_25_c.Exec.{Exec, modify, ◌>>=◌}
use g04_final_project_d_25_c.Database.{Database, TransferRow, insert_row}
use g04_final_project_d_25_c.Database.Users.{get_or_create_user}

-- `INSERT OR REPLACE`: a row with the same transfer id is taken out first.
abbrev pub replace_transfer : (ℕ → ℕ → TransferRow) → String → Database → Database
replace_transfer make transfer_id db = record db {
  file_transfers = insert_row (make db.now) (record db.file_transfers {
    rows = keep_if (λ t. not (t.transfer_id == transfer_id)) db.file_transfers.rows;
  });
}

unfoldable pub save_file_transfer :
    String
    → String
    → Option String
    → Option String
    → String
    → ℕ
    → String
    → String
    → String
    → Exec Database (Unit {0})
save_file_transfer transfer_id sender target_room target_user filename filesize path kind status =
    do
      sender_id ← get_or_create_user sender
      modify (
          replace_transfer
            (λ now i. record {
              id = i;
              transfer_id = transfer_id;
              sender_id = sender_id;
              target_room = target_room;
              target_user = target_user;
              filename = filename;
              filesize = filesize;
              file_path = path;
              transfer_type = kind;
              status = status;
              timestamp = now;
            })
            transfer_id)

unfoldable pub update_file_transfer_status : String → String → Database → Database
update_file_transfer_status transfer_id status db = record db {
  file_transfers = record db.file_transfers {
    rows =
        update_rows (λ t. t.transfer_id == transfer_id) (λ t. record t { status = status })
          db.file_transfers.rows;
  };
}
