-- ===== src/Server/Payload/Parser/Depth.antt =====
-- crates/skeg-server/src/payload.rs: how deep the calls of the parser of filters go. Each call takes one
-- of the fuel for the calls inside it, so fuel that is enough bounds the depth of the calls.
