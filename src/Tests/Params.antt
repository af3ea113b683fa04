-- ===== src/Tests/Params.antt =====
-- internal/queryparams: runs of `Compile`, and its results at inputs that meet their conditions.
use sqls.Base.{List, String, [], codes, refl, ℕ, ◌∷◌, ◌≡◌}
use sqls.QueryParams.Scan.{Parameter, Batch, ok}
use sqls.QueryParams.Compile.{compile}
use sqls.QueryParams.Keys.{HasSoundKeys, compile-HasSoundKeys}

-- A batch of two statements that share a parameter, with markers inside text and comments.
abbrev batch_text : List ℕ
batch_text = codes "select :a, ':b' from t -- :c?\nwhere x=:A; /* :q */ UPDATE y set z=:b_1$;"

abbrev parameter : String → String → Parameter
parameter name key = record {
  name = codes name;
  key = codes key;
  inferred_type = [];
  database_type = [];
}

abbrev batch : Batch
batch = record {
  parameters = parameter "a" "A" ∷ parameter "b_1$" "B_1$" ∷ [];
  statements =
      (record {
        sql = codes "select ?, ':b' from t -- :c?\nwhere x=?";
        keys = codes "A" ∷ codes "A" ∷ [];
      })
      ∷ (record { sql = codes "/* :q */ UPDATE y set z=?"; keys = codes "B_1$" ∷ [] })
      ∷ [];
}

compile-batch : compile batch_text ≡ ok batch
unfolding compile
compile-batch = refl

compile-HasSoundKeys_example : HasSoundKeys batch
compile-HasSoundKeys_example = compile-HasSoundKeys batch_text compile-batch
