-- ===== src/Examples/Restarted.antt =====
-- internal/store/postgres.go: a target with a key, stored and read back. The cipher changes nothing.
use load_observatory.Prelude.{ℤ, ◌≡◌, refl, true, false, some, none}
use load_observatory.Prelude.Floats.{whole}
use load_observatory.Core.Types.{Target, TargetType}
use load_observatory.Store.{new_memory_store}
use load_observatory.Store.Lifecycle.Calls
use load_observatory.Store.Persistence.{
  Cipher, Database, PostgresStore, persists, StoreCall, perform_in_memory, perform,
}
use load_observatory.Store.Persistence.Restart.{Seals, Written, new_postgres_store-perform}

abbrev clear : Cipher
clear = record { seal = λ nonce value. some value; unseal = λ sealed. some sealed }

clear-Seals : Seals clear
clear-Seals nonce value = (value, refl, refl)

abbrev keyed : Target
keyed = record {
  id = 0;
  name = "model";
  type = TargetType.model;
  url = "http://10.0.0.1/v1";
  model = "m";
  api_key = "k-1";
  has_api_key = false;
}

abbrev opened : PostgresStore ℤ
opened = record { memory = new_memory_store; row = none }

-- A database that takes every row.
abbrev working : Database ℤ
working = record { encodes = λ s. true; accepts = λ row. true }

new_postgres_store-perform_example :
    let done = perform_in_memory opened.memory (StoreCall.method (Calls.create_target keyed)) in
    let after =
      perform working clear (λ id. id) opened (StoreCall.method (Calls.create_target keyed)) in
    (after.memory ≡ done) × Written clear clear-Seals (λ id. id) working none done after.row
new_postgres_store-perform_example =
    new_postgres_store-perform clear clear-Seals (λ id. id) working opened
      (StoreCall.method (Calls.create_target keyed)) (unfold persists in refl)
