-- ===== src/Loader/Owned.antt =====
-- The references that load_module keeps (src/loader.rs).
use tach_core.Base.{
  ℕ, ◌≡◌, Text, Bool, not, ◌&&◌, ◌||◌, Option, some, List, [], ◌∷◌, is_empty, if◌then◌else◌, arith,
}
use tach_core.Loader.Registry.{ModuleRegistry}
use tach_core.Loader.Load.{
  Object, code_obj, module_obj, same_object, decref_in, decref, own, Interpreter, has_nul,
  is_package_source, patch_module, exec_code, make_strings, load_module,
}

-- What is still owned at the end: the code object if the module's name or path has a NUL, and the
-- module if the list for a package's path cannot be made.
abbrev leaked : Interpreter → Bool → Text → Text → List ℕ → List Object
leaked y is_pkg name source_path bytecode =
    if is_empty bytecode || not y.read_object
    then []
    else if has_nul name || has_nul source_path
    then code_obj ∷ []
    else if (y.name_string && (y.path_string && y.exec_code_module)) && (is_pkg && not y.new_list)
    then module_obj ∷ []
    else []

-- load_module releases no reference that it does not own, and in the end owns none, unless the code object
-- was read and the module's name or path has a NUL, or the module was made and the list for a package's
-- path was not.
load_module-leaked :
    (y : Interpreter) (registry : Option ModuleRegistry) (name source_path : Text)
    (bytecode : List ℕ)
    → (load_module y registry name source_path bytecode).1
      ≡ some (leaked y (is_package_source registry name source_path) name source_path bytecode)
unfolding load_module make_strings exec_code patch_module own decref decref_in same_object
load_module-leaked y registry name source_path bytecode = ground arith
