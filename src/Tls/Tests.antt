-- ===== src/Tls/Tests.antt =====
-- Examples of the certificate manager.
use picomx.Prelude.{ℕ, ◌*◌, ◌^◌, ◌≡◌, refl, true, false, none, some, [], ◌∷◌}
use picomx.Text.Bytes.{Bytes, codes}
use picomx.Text.Unicode.{Unicode}
use picomx.Tls.Load.{Leaf, LoadedCertificate, Load, loaded, Machine}
use picomx.Tls.Manager.{Manager, new_manager, run_reload_loop}
use picomx.Tls.Serving.{IsTick, IsServing, run_reload_loop-new_manager}

abbrev no_unicode : Unicode
no_unicode = record {
  upper = λ s. s;
  lower = λ s. s;
  trim = λ s. s;
  words = λ s. s ∷ [];
  fold_eq = λ s t. false;
}

-- A disk with one certificate that ends at this time, in every directory.
abbrev disk : ℕ → Machine
disk not_after = record {
  read_file = λ path. loaded (codes "pem");
  parse_pair =
      λ cert key. some (record { not_before = 0; not_after = not_after; covers = λ name. true });
  sha256 = λ content. not_after ∷ [];
}

abbrev first_certificate : LoadedCertificate
first_certificate = record {
  cert_pem = codes "pem";
  key_pem = codes "pem";
  leaf = record { not_before = 0; not_after = 10 ^ 18; covers = λ name. true };
  hash = 10 ^ 18 ∷ [];
  directory = codes "certs/mx.b.test";
}

abbrev started : Manager
started = record {
  cert_dir = codes "certs";
  hostnames = codes "mx.b.test" ∷ [];
  current = first_certificate;
  last_warning = none;
  log = [];
}

started_new :
    new_manager no_unicode
      (disk (10 ^ 18))
      5
      (codes "certs")
      (codes " MX.b.test." ∷ codes "mx.B.test" ∷ [])
    ≡ loaded started
unfolding picomx.Text.Bytes.bytes_eq picomx.Text.Bytes.split picomx.Text.Bytes.join
    picomx.Text.Bytes.trim_suffix picomx.Text.Bytes.has_prefix picomx.Text.Bytes.cut
    picomx.Text.Unicode.is_ascii picomx.Text.Unicode.upper_char picomx.Text.Unicode.lower_char
    picomx.Text.Unicode.is_space picomx.Text.Unicode.trim_left picomx.Text.Unicode.trim_ascii
    picomx.Text.Unicode.add_char picomx.Text.Unicode.words_ascii picomx.Text.Unicode.to_upper
    picomx.Text.Unicode.to_lower picomx.Text.Unicode.trim_space picomx.Text.Unicode.fields
    picomx.Text.Unicode.equal_fold picomx.Tls.Hostnames.is_dns_char
    picomx.Tls.Hostnames.ends_in_dash picomx.Tls.Hostnames.valid_dns_label
    picomx.Tls.Hostnames.valid_dns_name picomx.Tls.Hostnames.is_seen
    picomx.Tls.Hostnames.suffix_domains picomx.Tls.Hostnames.domain_candidates
    picomx.Tls.Hostnames.normalize_name picomx.Tls.Hostnames.collect_names
    picomx.Tls.Hostnames.at_least_one picomx.Tls.Hostnames.normalize_hostnames
    picomx.Tls.Load.join_path picomx.Tls.Load.check_leaf picomx.Tls.Load.parse_files
    picomx.Tls.Load.load_directory picomx.Tls.Load.is_not_exist picomx.Tls.Load.try_directories
    picomx.Tls.Load.load_names picomx.Tls.Load.load_certificate picomx.Tls.Manager.expiration_level
    picomx.Tls.Manager.level_number picomx.Tls.Manager.same_warning
    picomx.Tls.Manager.report_expiration picomx.Tls.Manager.unchanged picomx.Tls.Manager.is_valid_at
    picomx.Tls.Manager.swap picomx.Tls.Manager.offer picomx.Tls.Manager.reload
    picomx.Tls.Manager.first_report new_manager picomx.Tls.Manager.log_failure
    picomx.Tls.Manager.tick run_reload_loop picomx.Tls.Manager.get_certificate
started_new = refl

run_reload_loop-new_manager_example :
    IsServing no_unicode
      (IsTick ((disk 4, 6) ∷ (disk (2 * 10 ^ 18), 7) ∷ []))
      first_certificate
      (run_reload_loop no_unicode ((disk 4, 6) ∷ (disk (2 * 10 ^ 18), 7) ∷ []) started)
run_reload_loop-new_manager_example =
    run_reload_loop-new_manager no_unicode (disk (10 ^ 18)) 5 (codes "certs")
      (codes " MX.b.test." ∷ codes "mx.B.test" ∷ []) started
      ((disk 4, 6) ∷ (disk (2 * 10 ^ 18), 7) ∷ []) started_new
