-- ===== src/Loader/LoadTests.antt =====
-- A module that loads, one with a NUL in its name, and a package whose path cannot be set.
use tach_core.Base.{
  ◌≡◌, refl, chars, true, false, none, some, [], ◌∷◌, any, ends_with, starts_with, list_beq,
}
use tach_core.Loader.Load.{
  code_obj, module_obj, Interpreter, loaded, value_error, python_error, get_module,
  is_module_package, same_object, decref_in, decref, own, has_nul, is_package_source, patch_module,
  exec_code, make_strings, load_module,
}

program : Unit {0}
unfolding get_module is_module_package same_object decref_in decref own has_nul any
    is_package_source patch_module exec_code make_strings load_module ends_with starts_with list_beq
program = tt

abbrev python : Interpreter
python = record {
  read_object = true;
  name_string = true;
  path_string = true;
  exec_code_module = true;
  new_list = true;
}

none_left : load_module python none (chars "a") (chars "a.py") (1 ∷ []) ≡ (loaded, some [])
unfolding program
none_left = refl

code_left :
    load_module python none (0 ∷ []) (chars "a.py") (1 ∷ []) ≡ (value_error, some (code_obj ∷ []))
unfolding program
code_left = refl

module_left :
    load_module
      (record python { new_list = false })
      none
      (chars "a")
      (chars "a/__init__.py")
      (1 ∷ [])
    ≡ (python_error, some (module_obj ∷ []))
unfolding program
module_left = refl
