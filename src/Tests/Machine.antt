-- ===== src/Tests/Machine.antt =====
-- A machine on which every absolute path is there and real, the working directory is /w, the
-- compiler prints one include directory, and memory is granted.
use cc_base.Base.{true, Option, none, some, [], ◌∷◌, if◌then◌else◌}
use cc_base.Cstring.{codes, starts_with}
use cc_base.Paths.{FileSystem}
use cc_base.Host.{Host, Environ}
use cc_base.Logger.Session.{Outcome}

abbrev pub disk : FileSystem
disk = record {
  realpath = λ p. if starts_with p (codes "/") then some p else none;
  access = λ p. true;
  getcwd = some (codes "/w");
}

abbrev pub machine : Host
machine = record {
  fs = disk;
  popen = λ env command. some (
      codes "#include <...> search starts here:"
      ∷ codes " /inc"
      ∷ codes "End of search list."
      ∷ []);
  fopen = λ file. some (codes "\"a/B.java\"" ∷ []);
  wordexp = λ word. some (word ∷ []);
  grants = λ n. true;
}

abbrev pub all_well : Outcome
all_well = record { opens_lock = true; flocks = true; opens_log = true; fdopens = true }

abbrev pub settings : Environ
settings =
    codes "CC_LOGGER_FILE=/log" ∷ codes "CC_LOGGER_GCC_LIKE=gcc:g++" ∷ codes "LD_PRELOAD=/l.so" ∷ []

-- A value that is known to be there.
abbrev pub value_of {ℓ} : {A : Type ℓ} → A → Option A → A
value_of a none = a
value_of a (some b) = b
