-- ===== src/Service/Collections/Place.antt =====
-- A round over the collections moves the iterator nowhere, but at its end.
use pandora_agent_win.Base.Int.{pos, negsuc, eqb_ℤ}
use pandora_agent_win.Base.{
  ℕ, zero, suc, ◌≡◌, refl, ap, ◌∙◌, List, [], ◌∷◌, ◌++◌, Option, none, some, ◌==◌, ltb, length,
  take,
}
use pandora_agent_win.Conf.Defs.{Collection, verify_at, set_current_collection_verify}
use pandora_agent_win.File.{write_file, Disk}
use pandora_agent_win.Service.Collections.{
  verified, unzip_code, unzip_collection, fetch_md5, fetch_zip, first_md5,
}
use pandora_agent_win.Service.Kept.Files.{ended-Kept, read-Keeps}
use pandora_agent_win.Service.Kept.{
  Frame, Kept, Keeps, Keeps-bind, Keeps-if, Keeps-return, Keeps-throw, get-Keeps, ended_by-Keeps,
}
use pandora_agent_win.Service.Outside.{Outside}
use pandora_agent_win.Service.Receive.{
  recv_data_file, recv_tentacle_data_file, run_recv, recv_cmd, in_dir, left_at,
}
use pandora_agent_win.Service.Transfer.Keeps.{waited-Keeps}
use pandora_agent_win.Service.World.{
  World, write, remove, request, remove_dir, make_dir, run_client, written_to, Request, run_command,
}
use pandora_agent_win.Text.{Str, bytes, eq_str}

-- The iterator and the number of collections stay.
pub record SamePlace (w w' : World) : Type 0 where
  pub same_it : w'.conf.collection_it ≡ w.conf.collection_it
  pub same_length : length w'.conf.collection_list ≡ length w.conf.collection_list

abbrev pub same_place : Frame
same_place = record {
  rel = SamePlace;
  frame_refl = λ w. record { same_it = refl; same_length = refl };
  frame_trans = λ s t. record {
    same_it = t.same_it ∙ s.same_it;
    same_length = t.same_length ∙ s.same_length;
  };
}

remove-Keeps : (path : Str) → Keeps same_place (remove path)
remove-Keeps path = record { kept = λ w. record { same_it = refl; same_length = refl } }

pub request-Keeps : (r : Request) → Keeps same_place (request r)
request-Keeps r = record { kept = λ w. record { same_it = refl; same_length = refl } }

pub write-Keeps : (path text : Str) → Keeps same_place (write path text)
write-Keeps path text = record { kept = λ w. ends w (write_file w.disk path text) }
  where
    ends : (w : World) (o : Option Disk) → Kept same_place w (written_to w o)
    ends w none = record { same_it = refl; same_length = refl }
    ends w (some disk) = record { same_it = refl; same_length = refl }

verify_at-length : (ps : List Collection) (i : ℕ) → length (verify_at ps i) ≡ length ps
unfolding verify_at
verify_at-length [] i = refl
verify_at-length (p ∷ ps) zero = refl
verify_at-length (p ∷ ps) (suc i) = ap suc (verify_at-length ps i)

pub verified-Keeps : (path : Str) (o : Option ℕ) → Keeps same_place (verified path o)
unfolding set_current_collection_verify
verified-Keeps path none = record { kept = λ w. tt }
verified-Keeps path (some verify) =
    Keeps-if (verify == 0)
      (record {
        kept = λ w. record {
          same_it = refl;
          same_length = verify_at-length w.conf.collection_list w.conf.collection_it;
        };
      })
      (Keeps-return tt)

left_at_place :
    (path : Str) (o : Option Str) (w v : World) → SamePlace w v → SamePlace w (left_at path o v)
left_at_place path none w v s = s
left_at_place path (some text) w v s = record { same_it = s.same_it; same_length = s.same_length }

module _ (env : Outside) where
  recv_tentacle-Keeps :
      (host filename : Str) → Keeps same_place (recv_tentacle_data_file env host filename)
  unfolding recv_tentacle_data_file
  recv_tentacle-Keeps host filename = Keeps-bind (get-Keeps (bytes "temporal")) (λ temporal.
      Keeps-bind (get-Keeps (bytes "server_port")) (λ port.
        Keeps-bind (get-Keeps (bytes "server_ssl")) (λ ssl.
          Keeps-bind (get-Keeps (bytes "server_pwd")) (λ pass.
            Keeps-bind (get-Keeps (bytes "server_opts")) (λ opts.
              Keeps-if (env.chdir temporal)
                (Keeps-bind
                  (run-Keeps (in_dir temporal filename) (recv_cmd host port ssl pass opts filename))
                  (λ rc. Keeps-if (eqb_ℤ rc (pos 0)) (Keeps-return tt) Keeps-throw))
                Keeps-throw)))))
    where
      run-Keeps : (path command : Str) → Keeps same_place (run_recv env path command)
      run-Keeps path command = record {
        kept = λ w. ended-Kept same_place (env.command (run_command command ∷ w.requests)) w _ (
            left_at_place path (env.downloaded (run_command command ∷ w.requests)) w
              (record w { requests = run_command command ∷ w.requests })
              (record { same_it = refl; same_length = refl }));
      }

  recv-Keeps : (filename : Str) → Keeps same_place (recv_data_file env filename)
  unfolding recv_data_file
  recv-Keeps filename = Keeps-bind (get-Keeps (bytes "transfer_mode")) (λ mode.
      Keeps-bind (get-Keeps (bytes "server_ip")) (λ host.
        Keeps-bind (get-Keeps (bytes "server_path")) (λ path.
          Keeps-bind (ended_by-Keeps b'/' path) (λ remote_path.
            Keeps-if (eq_str mode (bytes "tentacle")) (recv_tentacle-Keeps host filename)
              Keeps-throw))))

  unzip-Keeps :
      (zip_path dest_dir : Str) → Keeps same_place (unzip_collection env zip_path dest_dir)
  unfolding unzip_collection
  unzip-Keeps zip_path dest_dir = Keeps-bind (request-Keeps (remove_dir dest_dir)) (λ _.
      Keeps-bind (request-Keeps (make_dir dest_dir)) (λ _. record {
        kept = λ w.
            (Keeps-if (env.made w.requests)
                (Keeps-bind
                  (request-Keeps (
                    run_client
                      (bytes "unzip.exe \""
                        ++ (zip_path ++ (bytes "\" -d \"" ++ (dest_dir ++ bytes "\""))))
                      none))
                  (λ _. code-Keeps))
                (Keeps-return (negsuc 0))).kept
              w;
      }))
    where
      code-Keeps : Keeps same_place (unzip_code env)
      code-Keeps = record {
        kept = λ w. (waited-Keeps same_place none (env.process w.requests)).kept w;
      }

  pub fetch_md5-Keeps : (temp_dir md5 : Str) → Keeps same_place (fetch_md5 env temp_dir md5)
  unfolding fetch_md5
  fetch_md5-Keeps temp_dir md5 = Keeps-bind (recv-Keeps md5) (λ _.
      Keeps-bind (read-Keeps same_place (temp_dir ++ md5)) (λ text.
        Keeps-bind (remove-Keeps (temp_dir ++ md5))
          (λ _. Keeps-if (ltb (length text) 32) (Keeps-return none) (Keeps-return (some text)))))

  pub fetch_zip-Keeps :
      (temp_dir dir name : Str) → Keeps same_place (fetch_zip env temp_dir dir name)
  unfolding fetch_zip
  fetch_zip-Keeps temp_dir dir name = Keeps-bind (recv-Keeps (name ++ bytes ".zip")) (λ _.
      Keeps-bind (unzip-Keeps (temp_dir ++ (name ++ bytes ".zip")) (dir ++ name))
        (λ rc. remove-Keeps (temp_dir ++ (name ++ bytes ".zip"))))

  pub first_md5-Keeps :
      (temp_dir dir md5 : Str) (o : Option Str)
      → Keeps same_place (first_md5 env temp_dir dir md5 o)
  unfolding first_md5
  first_md5-Keeps temp_dir dir md5 none = Keeps-return none
  first_md5-Keeps temp_dir dir md5 (some text) =
      Keeps-bind (write-Keeps (dir ++ md5) (take 32 text)) (λ _. Keeps-return (some tt))
