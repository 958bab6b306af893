-- ===== src/Config/Load/Loaded.antt =====
-- What a configuration that is loaded has from the file.
