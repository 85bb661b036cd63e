-- ===== src/Core/Session.antt =====
-- src/adp/core/models.py and src/adp/core/session.py: the record of a download that is saved for
-- the next process. The JSON of the standard library carries these values unchanged; a text that is
-- not one of them is not modelled.
use adp_pro.Prelude.{ℕ, String, Bool, Option}
use adp_pro.Core.Models.{Status}

pub record DownloadRecord : Type 0 where
  pub download_id : String
  pub url : String
  pub save_path : String
  pub checksum : Option String
  pub num_threads : ℕ
  pub category : String
  pub speed_limit : ℕ
  -- In seconds.
  pub scheduled_time : Option ℕ
  -- None for a name that is no member of the enum.
  pub status : Option Status
  pub downloaded_size : ℕ
  pub total_size : ℕ
  pub verify_tls : Bool
  pub destination_owned_by_adp : Bool
  pub restart_required : Bool
  pub allow_overwrite : Bool
