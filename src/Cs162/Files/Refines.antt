-- ===== src/Cs162/Files/Refines.antt =====
-- `handle_files_request` meets its contract.
